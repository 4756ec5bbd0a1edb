-- ===== src/Server.antt =====
-- cmd/test-server/main.go: the HTTP handlers of the demonstration server, over one table.
-- What a request's body decodes to is an argument, an empty record for null; so are the texts that
-- package fmt writes: that of a new identifier, and those of the messages. A response is its status
-- with what its body says; `aborted` is a handler that panics, which net/http stops.
pub mod Settings
pub mod Main
pub mod Retries
use shock_absorber.Prelude.{
  ℕ, String, Bool, List, [], ◌∷◌, Option, none, some, lookup, insert, is_some, Error, Result, ok,
  err, Done, if◌then◌else◌, ◌==◌, sprintf,
}
use shock_absorber.Core.{Value, string, Record}
use shock_absorber.Table.State.{TableImpl, World, Times}
use shock_absorber.Table.Ops.{create_record, find_by_field}

pub data Response : Type 0 where
  http_error : ℕ → String → Response
  -- The three bodies of a success.
  existing created found : Record → Response
  health : Bool → Response
  aborted : Response

abbrev pub reference : String
reference = "upi_reference_id"

-- A generated identifier, unless the payment has one.
unfoldable pub identified : String → Record → Record
identified id payment =
    if is_some (lookup "id" payment) then payment else insert "id" (string id) payment

module _ {S D Q : Type 0} (t : TableImpl S D Q) (text : Error → String) where
  -- What `createPayment` answers once `Create` has returned.
  unfoldable pub respond : Record → Done × World S D Q → Response × World S D Q
  respond payment (ok u, w) = (created payment, w)
  respond payment (err e, w) =
      (http_error 500 (sprintf ("Failed to create payment: " ∷ text e ∷ [])), w)

  -- What follows the search for the reference.
  unfoldable pub unless_found :
      Times → String → Record → Result Record × World S D Q → Response × World S D Q
  unfolding respond
  unless_found times id payment (ok r, w) = (existing r, w)
  unless_found times id payment (err e, w) =
      let payment' = identified id payment in
      respond payment' (create_record t times (some payment') w)

  unfoldable pub create_referenced :
      ℕ → Times → String → Record → Option Value → World S D Q → Response × World S D Q
  unfolding unless_found
  create_referenced now times id payment none w = (http_error 400 "upi_reference_id is required", w)
  create_referenced now times id payment (some (string ref)) w =
      unless_found times id payment (find_by_field t now reference (string ref) w)
  create_referenced now times id payment (some other) w = (aborted, w)

  -- `createPayment`
  unfoldable pub create_payment :
      ℕ → Times → String → Result Record → World S D Q → Response × World S D Q
  unfolding create_referenced
  create_payment now times id (err e) w =
      (http_error 400 (sprintf ("Invalid JSON: " ∷ text e ∷ [])), w)
  create_payment now times id (ok payment) w =
      create_referenced now times id payment (lookup reference payment) w

  -- `paymentHandler`
  payment_handler :
      String → ℕ → Times → String → Result Record → World S D Q → Response × World S D Q
  payment_handler method now times id body w =
      if method == "POST"
      then create_payment now times id body w
      else (http_error 405 "Method not allowed", w)

  answer : Result Record × World S D Q → Response × World S D Q
  answer (ok r, w) = (found r, w)
  answer (err e, w) = (http_error 404 (sprintf ("Payment not found: " ∷ text e ∷ [])), w)

  -- `getPaymentByReferenceHandler`, with what follows the prefix in the path.
  get_payment_by_reference_handler : String → String → ℕ → World S D Q → Response × World S D Q
  unfolding answer
  get_payment_by_reference_handler method ref now w =
      let reply = answer (find_by_field t now reference (string ref) w) in
      if method == "GET"
      then (if ref == "" then (http_error 400 "Reference ID required", w) else reply)
      else (http_error 405 "Method not allowed", w)

-- `healthHandler`; the time in its body is left out.
health_handler : Bool → Response
health_handler running = health running
