-- ===== src/Listings/Moderation/Paths.antt =====
-- The status of a listing through every history of the moderators' calls.
use uza_mobility_bn.Base.{
  ℕ, ◌≡◌, refl, sym, subst, String, some, true, arith, inl, inr, Option-cases, Bool-cases, is_some,
  ◌==◌, ==_iff,
}
use uza_mobility_bn.Base.Chains.{Chain, stop, step, join}
use uza_mobility_bn.Js.{Js}
use uza_mobility_bn.Db.{Prisma, PrismaLaws}
use uza_mobility_bn.Schema.Catalog.{ListingStatus}
use uza_mobility_bn.Schema.Rows.{Listing}
use uza_mobility_bn.Schema.World.{World}
use uza_mobility_bn.Api.{Action}
use uza_mobility_bn.Platform.Audit.{RequestAuditContext}
use uza_mobility_bn.Listings.Transitions.{can_transition}
use uza_mobility_bn.Listings.Moderation.{
  moved_to, published_at_time, turned_down, kept_listing, admin_approve, admin_unpublish,
  admin_publish, admin_reject,
}
use uza_mobility_bn.Listings.Moderation.Outcome.{
  MovesTo, transition-cases, publish-cases, reject_listing-cases,
}

-- A published listing has its date of publication.
abbrev pub IsDated : Listing → Type 0
IsDated listing = listing.status ≡ ListingStatus.published → is_some listing.published_at ≡ true

-- A change that leads to one status, and to a dated row.
record LeadsTo (to : ListingStatus) (change : Listing → Listing) : Type 0 where
  arrives : (listing : Listing) → (change listing).status ≡ to
  dated : (listing : Listing) → IsDated (change listing)

module _ ⦃N : Js⦄ ⦃P : Prisma⦄ where
  open P use {Table, find_unique, update}

  pub data ModerationCall : Type 0 where
    approve publish unpublish : ℕ → ℕ → RequestAuditContext → ModerationCall
    turn_down : ℕ → ℕ → String → RequestAuditContext → ModerationCall

  unfoldable pub run_moderation : ModerationCall → World → World
  run_moderation (approve id admin ctx) w = (admin_approve id admin ctx w).1
  run_moderation (publish id admin ctx) w = (admin_publish id admin ctx w).1
  run_moderation (unpublish id admin ctx) w = (admin_unpublish id admin ctx w).1
  run_moderation (turn_down id admin reason ctx) w = (admin_reject id admin reason ctx w).1

  pub data ModerationHistory (start : World) : World → Type 0 where
    begin : ModerationHistory start start
    call :
        {w : World}
        → ModerationHistory start w
        → (c : ModerationCall) → ModerationHistory start (run_moderation c w)

  -- What becomes of a listing: it is still there, at the end of a chain of allowed transitions, and
  -- dated.
  abbrev pub Moderated : World → ℕ → Listing → Type 0
  Moderated w j listing =
      (l : Listing) × (find_unique w.listings j ≡ some l)
      × Chain can_transition listing.status l.status
      × IsDated l

  module _ ⦃L : PrismaLaws⦄ where
    open L use {find-update}

    kept_listing-found :
        (id : ℕ) (w : World) {listing : Listing}
        → kept_listing id w ≡ some listing
        → find_unique w.listings id ≡ some listing
    kept_listing-found id w {listing} e = elim (Option-cases (find_unique w.listings id)) [
      | inl n ↦ absurd (ground (arith, e, n))
      | inr (l, f) ↦ elim (Bool-cases (is_some l.deleted_at)) [
        | inl d ↦ absurd (ground (arith, e, f, d))
        | inr d ↦ ground (arith, e, f, d)
      ]
    ]

    one_call :
        (id : ℕ) (w : World) {to : ListingStatus} {change : Listing → Listing}
        (act : Action World Listing)
        → LeadsTo to change
        → MovesTo id w to change act
        → (j : ℕ) (listing : Listing) → find_unique w.listings j ≡ some listing
        → IsDated listing
        → Moderated (act w).1 j listing
    one_call id w act leads (inl (e, same)) j listing found d =
        (listing, rw same found, stop listing.status, d)
    one_call id w {to} {change} act leads (inr (l, kept, allowed, _, written)) j listing found d =
        elim (Bool-cases (id == j)) [
          | inr other ↦ (listing, rw (written, find-update, other) found, stop listing.status, d)
          | inl here ↦
              let at_j : find_unique w.listings j ≡ some l =
                subst (λ k. find_unique w.listings k ≡ some l) ((==_iff id j).0 here)
                  (kept_listing-found id w kept) in
              let same : l ≡ listing = ground (arith, at_j, found) in
              let allowed' : can_transition listing.status to ≡ true =
                subst (λ x. can_transition x.status to ≡ true) same allowed in
              (
                change listing,
                rw (written, find-update, here, found) refl,
                subst (λ s. Chain can_transition listing.status s) (sym (leads.arrives listing))
                    (step (stop listing.status) allowed'),
                leads.dated listing,
              )
        ]

    leads_to : (to : ListingStatus) → (to ≡ ListingStatus.published → ⊥) → LeadsTo to (moved_to to)
    leads_to to other = record { arrives = λ l. refl; dated = λ l e. absurd (other e) }

    leads_published : (now : ℕ) → LeadsTo ListingStatus.published (published_at_time now)
    leads_published now = record { arrives = λ l. refl; dated = λ l e. refl }

    leads_rejected : (reason : String) → LeadsTo ListingStatus.rejected (turned_down reason)
    leads_rejected reason = record {
      arrives = λ l. refl;
      dated = λ l e. absurd (ground (arith, e));
    }

    call-Moderated :
        (c : ModerationCall) (w : World) (j : ℕ) (listing : Listing)
        → find_unique w.listings j ≡ some listing
        → IsDated listing
        → Moderated (run_moderation c w) j listing
    unfolding run_moderation admin_approve admin_unpublish
    call-Moderated (approve id admin ctx) w j listing found d =
        one_call id w (admin_approve id admin ctx)
          (leads_to ListingStatus.approved (λ e. absurd (ground (arith, e))))
          (transition-cases id w ListingStatus.approved admin "listings:approved" ctx) j listing
          found d
    call-Moderated (unpublish id admin ctx) w j listing found d =
        one_call id w (admin_unpublish id admin ctx)
          (leads_to ListingStatus.suspended (λ e. absurd (ground (arith, e))))
          (transition-cases id w ListingStatus.suspended admin "listings:unpublished" ctx) j listing
          found d
    call-Moderated (publish id admin ctx) w j listing found d =
        one_call id w (admin_publish id admin ctx) (leads_published w.now)
          (publish-cases id w admin ctx) j listing found d
    call-Moderated (turn_down id admin reason ctx) w j listing found d =
        one_call id w (admin_reject id admin reason ctx) (leads_rejected reason)
          (reject_listing-cases id w admin reason ctx) j listing found d

    -- Through every history of the moderators' calls, in any order, a listing that has its date of
    -- publication if it is published is still there, its status lies at the end of a chain of allowed
    -- transitions from the status at the start, and if it is published then, it has its date.
    pub moderation-Chain :
        (start : World) {w : World} (j : ℕ) (listing : Listing)
        → find_unique start.listings j ≡ some listing
        → IsDated listing
        → ModerationHistory start w
        → Moderated w j listing
    moderation-Chain start j listing found d begin = (listing, found, stop listing.status, d)
    moderation-Chain start j listing found d (call {w = before} h c) =
        let (l, there, path, dated) = moderation-Chain start j listing found d h in
        let (l', there', path', dated') = call-Moderated c before j l there dated in
        (l', there', join path path', dated')
