-- ===== src/Lib.antt =====
-- The UZA mobility back end, a NestJS server that keeps its data with Prisma: invoices, payments,
-- orders, bookings and prices of vehicles, and the requests, stations, parts and dealers around them.
--
-- A buyer requests an invoice for a listing, or books the vehicle for a fee. The buyer then submits
-- a payment, which the finance team confirms, rejects or marks as partial. A confirmed payment makes
-- an order, which an administrator advances through the stages of its kind of seller to the
-- delivery. Unpaid invoices expire. Each step writes notifications and entries of the activity log.
-- Beside this, organisations request fleets, buyers request financing from a bank, visitors inquire
-- about listings and ask for energy, and operators and dealers submit stations and parts, which
-- administrators review.
--
-- Correspondence. A handler `methodName` of a service is a function `method_name` of the module that
-- is named for its part; it takes the state `World` (Schema/World), the tables and the clock as one
-- request sees them, and returns a result or an exception with the state after it (Api).
--   Schema             prisma/schema.prisma: enumerations and rows
--   Platform           src/common and src/modules/platform-settings, notifications: money, settings
--                      and rates, reference numbers, notifications, audit, uploads
--   Orders             src/modules/orders: order-stages.ts (Stages), createFromInvoice (Creation),
--                      advanceOrderStatus and cancelOrder (Progress), shipments (Fulfillment),
--                      findTrackingForUser (Buyer), and src/modules/sustainability (Delivery);
--                      Steps is the step relation of an order and the histories of calls
--   Payments           src/modules/payments: submitPayment (Submission), confirmPayment,
--                      rejectPayment, markPartial (Verification), the buyer's list (Listing)
--   Invoices           src/modules/invoices: requestInvoice (Request), createFleetInvoice (Fleet),
--                      cancellations (Cancellation), expireDueInvoices (Expiry),
--                      fulfillPendingBuyInquiries (Fulfillment), the mapper
--                      (Snapshot), queries (Queries); Calls is the histories of calls
--   Bookings           src/modules/bookings: requestBooking (Request), updateBookingFee (Fee),
--                      submitPayment (Submission), cancelBookingByBuyer (Cancellation), confirmBooking
--                      and rejectBooking (Verification); Steps as for the orders
--   Listings           src/modules/listings: listing-transitions.ts (Transitions), the moderators' calls
--                      (Moderation), listing-inventory.util.ts (Inventory)
--   Pricing            src/modules/pricing (Discount, Breakdown) and the choice of a promotion of
--                      src/modules/promotions (Promotion)
--   Fleet              src/modules/fleet: submitRequest (Requests), updateStatus and adminFindById
--                      (Review), the associations, the lists (Browse); Progress is the histories
--   Financing          src/modules/financing: submitRequest and createBank (Requests), assignBank and
--                      recordOutcome (Review), the lists (Browse); LifeCycle and Progress are the
--                      histories
--   ChargingStations   src/modules/charging-stations: operators (Operators), owners' calls (Stations,
--                      Equipment), moderators' calls (Review), the lists (Browse); Steps is the histories
--   Parts              src/modules/parts: part.mapper.ts and what is written (Rows), the calls that
--                      write (Writes), moderation (Review), the lists (Browse); Steps and Shown
--                      are the histories and what the public sees
--   Sellers            src/modules/sellers: seller-profile.util.ts (Profiles), verifySeller and the
--                      like (Moderation); Standing is the histories
--   Categories         src/modules/categories: categories (Main) and subcategories; Deletion is what a
--                      permanent deletion leaves, by the foreign keys of prisma/migrations
--   Energy             src/modules/energy: charging products (Products) and requests for a quote (Requests)
--   Inquiries          src/modules/inquiries: submit, adminUpdateStatus (Requests), the lists (Browse)
--   Platform/Slug      src/common/utils/slug.util.ts; Platform/Pages is the pages that the lists return
--   Db/Histories       what the calls of a service do to its table, in any order
--   Tests              instances of the interfaces, and the theorems at concrete data
--
-- Interfaces. The record `Prisma` (Db) is the data base client; its laws `PrismaLaws` say what the
-- documentation of find, create, update and count says, one call at a time. The record `Js` (Js) is
-- JavaScript's numbers and texts, and `JsLaws` the laws of finite IEEE doubles that the proofs use.
-- Tests/Memory and Tests/Natural show that both have an instance.
--
-- Bounds. Ids and dates are unbounded natural numbers; amounts are finite doubles of the interface.
-- The search for a free slug takes as many turns as the table has rows and one more, which is enough
-- since each turn but the last meets another row; the other loops run over lists of rows. A call is
-- atomic, so two calls interleave only as a sequence of whole calls. What a handler writes before it
-- throws stays written, but for a transaction.
--
-- Not modelled: controllers, validation of input, authentication and the users' accounts, rendering of
-- PDFs and e-mails (taken to succeed), web sockets, raw SQL queries, the lists of the commerce
-- services, the dashboards, and the rest of the listings.
pub mod Api
pub mod Base
pub mod Bookings
pub mod Categories
pub mod ChargingStations
pub mod Db
pub mod Energy
pub mod Financing
pub mod Fleet
pub mod Inquiries
pub mod Invoices
pub mod Js
pub mod Listings
pub mod Orders
pub mod Parts
pub mod Payments
pub mod Platform
pub mod Pricing
pub mod Schema
pub mod Sellers
pub mod Tests
