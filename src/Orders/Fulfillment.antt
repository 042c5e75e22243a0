-- ===== src/Orders/Fulfillment.antt =====
-- src/modules/orders/orders.service.ts: `upsertShipment`, `assignFulfillment`,
-- `notifyPortArrival` and the text for the buyer.
pub mod Outcome
use uza_mobility_bn.Base.{
  ℕ, Bool, true, false, Option, none, some, String, List, [], ◌∷◌, ◌++◌, coalesce, any, ◌==◌,
}
use uza_mobility_bn.Base.Text.{◌<>◌}
use uza_mobility_bn.Js.{Js}
use uza_mobility_bn.Db.{Prisma}
use uza_mobility_bn.Schema.Requests.{NotificationType}
use uza_mobility_bn.Schema.Rows.{Order, Listing, Shipment, Json}
use uza_mobility_bn.Schema.World.{World}
use uza_mobility_bn.Api.{
  Action, ok, bad_request, not_found, ◌>>=◌, ◌>>◌, pure, gets, modify, require,
}
use uza_mobility_bn.Platform.Settings.{trimmed, non_empty}
use uza_mobility_bn.Platform.Notifications.{Message, send}
use uza_mobility_bn.Platform.Audit.{RequestAuditContext, record_activity}
use uza_mobility_bn.Platform.Uploads.{to_absolute_upload_url}
use uza_mobility_bn.Orders.Progress.{get_order_or_throw}

pub record UpsertShipmentDto : Type 0 where
  pub document_number : Option String
  pub vessel_name : Option String
  pub voyage_number : Option String
  pub eta_at : Option ℕ
  pub port_of_loading : Option String
  pub port_of_discharge : Option String
  pub terminal_of_pickup : Option String
  pub final_place_of_delivery : Option String
  pub container_number : Option String
  pub seal_number : Option String
  pub carrier_track_url : Option String
  pub notes : Option String
  pub order_ids : List ℕ

pub record AssignOrderFulfillmentDto : Type 0 where
  pub vin : String
  pub shipment_id : Option ℕ
  pub shipment : Option UpsertShipmentDto

-- A text that is there and not empty, between two others.
abbrev wrapped : String → Option String → String → String
wrapped before none after = ""
wrapped before (some text) after = elim (non_empty text) [
  | none ↦ ""
  | some t ↦ before <> t <> after
]

abbrev part : String → Option String → String → List String
part before none after = []
part before (some text) after = elim (non_empty text) [
  | none ↦ []
  | some t ↦ (before <> t <> after) ∷ []
]

-- `parts.join(' ')`
pub join_words : List String → String
join_words [] = ""
join_words (p ∷ []) = p
join_words (p ∷ q ∷ ps) = p <> " " <> join_words (q ∷ ps)

module _ ⦃N : Js⦄ where
  open N use {trim, to_upper, iso_day, encode_uri}

  eta_part : Option ℕ → List String
  eta_part none = []
  eta_part (some eta) = ("ETA: " <> iso_day eta) ∷ []

  shipment_parts : Option Shipment → List String
  unfolding eta_part
  shipment_parts none = []
  shipment_parts (some s) =
      part "Container: " s.container_number ""
      ++ part "Vessel: " s.vessel_name (wrapped " / " s.voyage_number "")
      ++ eta_part s.eta_at
      ++ part "Port: " s.port_of_discharge (wrapped " (" s.terminal_of_pickup ")")
      ++ part "Track: " s.carrier_track_url ""

  shipment_headline : Bool → String → String
  shipment_headline true title = "Good news — " <> title <> " has an arrival notice at port."
  shipment_headline false title = "Shipping details for " <> title <> " were updated."

  pub build_buyer_shipment_body : Option Listing → Option String → Option Shipment → Bool → String
  unfolding shipment_headline shipment_parts join_words
  build_buyer_shipment_body listing vin shipment at_port =
      let title : String = elim listing [ none ↦ "your vehicle" | some l ↦ l.listing_title ] in
      join_words (
        shipment_headline at_port title ∷ part "VIN: " vin ""
        ++ shipment_parts shipment
        ++ "Our team is arranging the next steps toward Kigali. Reply if you have questions." ∷ [])

  -- `carrierTrackUrl?.trim() || (containerNumber?.trim() ? `…` : null)`
  track_url : UpsertShipmentDto → Option String
  track_url dto = coalesce (trimmed dto.carrier_track_url) (elim (trimmed dto.container_number) [
    | none ↦ none
    | some c ↦ some ("https://www.msc.com/track-a-shipment?query=" <> encode_uri c)
  ])

  new_shipment : UpsertShipmentDto → Option String → String → Shipment
  unfolding track_url to_absolute_upload_url
  new_shipment dto arrival_notice_file_url base_url = record {
    document_number = trimmed dto.document_number;
    vessel_name = trimmed dto.vessel_name;
    voyage_number = trimmed dto.voyage_number;
    eta_at = dto.eta_at;
    port_of_loading = trimmed dto.port_of_loading;
    port_of_discharge = trimmed dto.port_of_discharge;
    terminal_of_pickup = trimmed dto.terminal_of_pickup;
    final_place_of_delivery = trimmed dto.final_place_of_delivery;
    container_number = trimmed dto.container_number;
    seal_number = trimmed dto.seal_number;
    carrier_track_url = track_url dto;
    arrival_notice_file_url = elim arrival_notice_file_url [
      | none ↦ none
      | some url ↦ elim (non_empty url) [
        | none ↦ none
        | some u ↦ some (to_absolute_upload_url u base_url)
      ]
    ];
    notes = trimmed dto.notes;
  }

  shipping_updated : ℕ → Option Listing → Order → Option Shipment → Message
  shipping_updated order_id listing updated shipment = record {
    kind = NotificationType.shipment_update;
    title = "Shipping details updated";
    body = build_buyer_shipment_body listing updated.vin shipment false;
    metadata =
        ("orderId", Json.id order_id)
        ∷ ("vin", Json.nullable updated.vin)
        ∷ (
          "containerNumber",
          Json.nullable (elim shipment [ none ↦ none | some s ↦ s.container_number ]),
        )
        ∷ [];
  }

  port_arrival : ℕ → Order → Shipment → String → Message
  port_arrival order_id order shipment body = record {
    kind = NotificationType.shipment_update;
    title = "Your vehicle has arrived at port";
    body = body;
    metadata =
        ("orderId", Json.id order_id)
        ∷ ("vin", Json.nullable order.vin)
        ∷ ("containerNumber", Json.nullable shipment.container_number)
        ∷ [];
  }

  no_context : RequestAuditContext
  no_context = record { ip_address = none; user_agent = none; actor_email = none }

  module _ ⦃P : Prisma⦄ where
    open P use {find_unique, new_id, insert, update, update_many}

    abbrev pub shipment_of : World → Option ℕ → Option Shipment
    shipment_of w none = none
    shipment_of w (some shipment_id) = find_unique w.shipments shipment_id

    -- `order.updateMany({ where: { id: { in: orderIds } }, data: { shipmentId } })`
    abbrev assign_shipment : List ℕ → ℕ → World → World
    assign_shipment order_ids shipment_id w = record w {
      orders =
          update_many w.orders (λ id _. any (λ listed. listed == id) order_ids)
            (λ order. record order { shipment_id = some shipment_id });
    }

    -- Returns the id of the new shipment.
    unfoldable pub upsert_shipment :
        UpsertShipmentDto → Option String → ℕ → RequestAuditContext → Action World ℕ
    unfolding new_shipment record_activity
    upsert_shipment dto arrival_notice_file_url admin ctx = do
      shipment_id ← gets (λ w. new_id w.shipments)
      base_url ← gets (λ w. w.public_upload_base_url)
      let shipment = new_shipment dto arrival_notice_file_url base_url
      modify (λ w. record w { shipments = insert w.shipments shipment })
      modify (assign_shipment dto.order_ids shipment_id)
      record_activity admin "shipments:created" "Shipment" (some shipment_id) ctx (
          some (
            ("containerNumber", Json.nullable shipment.container_number)
            ∷ ("orderIds", Json.ids dto.order_ids)
            ∷ []))
      pure shipment_id

    -- The shipment that the order is to have: a new one, a given one, or the one it has.
    choose_shipment :
        ℕ
        → Order
        → AssignOrderFulfillmentDto
        → Option String
        → ℕ
        → RequestAuditContext
        → Action World (Option ℕ)
    unfolding upsert_shipment
    choose_shipment order_id order dto url admin ctx w = elim dto.shipment [
      | some shipment ↦
          (do
            shipment_id ←
                upsert_shipment (record shipment { order_ids = order_id ∷ shipment.order_ids }) url
                  admin ctx
            pure (some shipment_id))
            w
      | none ↦ elim dto.shipment_id [
        | none ↦ (ok order.shipment_id, w)
        | some shipment_id ↦
            (do
              require (find_unique w.shipments shipment_id) (not_found "Shipment not found")
              pure (some shipment_id))
              w
      ]
    ]

    unfoldable pub assign_fulfillment :
        ℕ → AssignOrderFulfillmentDto → Option String → ℕ → RequestAuditContext → Action World Order
    unfolding get_order_or_throw choose_shipment shipping_updated send record_activity
    assign_fulfillment order_id dto arrival_notice_file_url admin ctx = do
      order ← get_order_or_throw order_id
      shipment_id ← choose_shipment order_id order dto arrival_notice_file_url admin ctx
      let change = λ (o : Order). record o {
        vin = some (to_upper (trim dto.vin));
        shipment_id = shipment_id;
      }
      modify (λ w. record w { orders = update w.orders order_id change })
      let updated = change order
      listing ← gets (λ w. find_unique w.listings order.listing_id)
      shipment ← gets (λ w. shipment_of w shipment_id)
      send order.user_id (shipping_updated order_id listing updated shipment)
      record_activity admin "orders:fulfillment-assigned" "Order" (some order_id) ctx (
          some (
            ("vin", Json.nullable updated.vin) ∷ ("shipmentId", Json.nullable_id shipment_id) ∷ []))
      pure updated

    -- Returns the message that the buyer was sent.
    unfoldable pub notify_port_arrival : ℕ → ℕ → Action World String
    unfolding get_order_or_throw port_arrival send record_activity no_context
    notify_port_arrival order_id admin = do
      order ← get_order_or_throw order_id
      found ← gets (λ w. shipment_of w order.shipment_id)
      shipment ←
          require found
            (bad_request "Assign shipment / arrival notice details before notifying the buyer")
      listing ← gets (λ w. find_unique w.listings order.listing_id)
      let body = build_buyer_shipment_body listing order.vin (some shipment) true
      send order.user_id (port_arrival order_id order shipment body)
      record_activity admin "orders:port-notified" "Order" (some order_id) no_context none
      pure body
