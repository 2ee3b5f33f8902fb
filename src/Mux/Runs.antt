-- ===== src/Mux/Runs.antt =====
-- Tests, and the theorems at concrete inputs: frames whose first byte is their key.
use isopace.Common.{
  ℕ, ◌≡◌, ◌≢◌, refl, Option, eq_bytes, arith, true, false, none, some, [], ◌∷◌, Bytes, Result, ok,
  err, length,
}
use isopace.Engine.Codec.{marshal}
use isopace.Engine.Message.{set_field, unset, new_message, field}
use isopace.Engine.RoundTrip.{IsBuilt}
use isopace.Field.Built.{Built-IsBuilt}
use isopace.Field.Runs.{
  schema, with_mti, mti_digits, code_text, pan_text, with_mti-Built, schema-IsRoomy, mti_IsWritable,
}
use isopace.Mux.Correlation.{returned_frame_matches, pending_in_flight, reader_returns}
use isopace.Mux.Keys.{field_keyer, join_bar, field_keyer-marshal, TextsAt}
use isopace.Mux.Leaving.{Returns, stopped_request-Returns}
use isopace.Mux.Reuse.{register_step, hand_over_step, reused_key_unanswered}
use isopace.Mux.Stop.{first_cause_wins}
use isopace.Mux.Steps.{
  Config, Mux, Step, Phase, active, waiting, leaving, returned, new_mux, response_key, sent, finish,
  put_frame, HasRoom, stop, handler_of, err_of, send, timeout, closed, closed_err, dispatch,
  receive, receiving, delivering, by_unsolicited, write, deliver, answer, leave, Run, here, next,
}

abbrev first_byte : Bytes → Result ℕ Bytes
first_byte [] = err 0
first_byte (b ∷ _) = ok (b ∷ [])

abbrev config : Config ℕ
config = record {
  key = first_byte;
  timeout = 5;
  has_unsolicited = true;
  has_replier = false;
  resp_key = none;
}

abbrev echo : Bytes
echo = 7 ∷ 0 ∷ []

abbrev reply : Bytes
reply = 7 ∷ 1 ∷ []

-- A request that is in the table, and sent.
in_select :
    (m : Mux ℕ) × Run config new_mux m
    × (m.calls 1 ≡ active echo (7 ∷ []) none waiting)
    × (m.pending (7 ∷ []) ≡ some 1)
    × (m.reader ≡ receiving)
unfolding sent eq_bytes
in_select =
    let r1 = next here (register_step config new_mux 1 echo (7 ∷ []) refl refl refl) in
    let r2 = next r1 (write 1 none refl) in (_, r2, refl, refl, refl)

-- The reply has come, and is about to be put in the channel.
handed :
    (m : Mux ℕ) × Run config new_mux m
    × (m.calls 1 ≡ active echo (7 ∷ []) none waiting)
    × (m.reader ≡ delivering 1 reply)
unfolding response_key
handed =
    let (m, r, wait, entry, ready) = in_select in
    (_, next r (hand_over_step config m 1 reply (7 ∷ []) ready refl entry), wait, refl)

finished :
    (m : Mux ℕ) × Run config new_mux m
    × (m.calls 1 ≡ active echo (7 ∷ []) none (returned (ok reply)))
unfolding put_frame HasRoom response_key sent finish eq_bytes
finished =
    let r1 = next here (register_step config new_mux 1 echo (7 ∷ []) refl refl refl) in
    let r2 = next r1 (write 1 none refl) in
    let r3 = next r2 (hand_over_step config _ 1 reply (7 ∷ []) refl refl refl) in
    let r4 = next r3 (deliver 1 refl tt) in
    let r5 = next r4 (answer 1 refl) in let r6 = next r5 (leave 1 refl) in (_, r6, refl)

returned_frame_matches_example :
    (first_byte echo ≡ ok (7 ∷ [])) × (response_key config reply ≡ ok (7 ∷ []))
returned_frame_matches_example = returned_frame_matches finished.1 finished.2

pending_in_flight_example :
    (req : Bytes) × (at : Phase ℕ) × (in_select.0.calls 1 ≡ active req (7 ∷ []) none at)
    × (first_byte req ≡ ok (7 ∷ []))
    × ((res : Result _ Bytes) → at ≢ returned res)
pending_in_flight_example = pending_in_flight in_select.1 in_select.3

reader_returns_example : (n : Mux ℕ) × Step config handed.0 n × (n.reader ≡ receiving)
reader_returns_example = reader_returns handed.1 handed.3

abbrev downed : Mux ℕ
downed = record new_mux {
  calls = λ _. active echo (7 ∷ []) none waiting;
  done = true;
  read_err = some closed;
}

-- A frame comes in after the stop.
stopped_request-Returns_example :
    Returns config echo (7 ∷ []) 1 (closed_err downed) (dispatch config reply downed)
stopped_request-Returns_example =
    stopped_request-Returns config echo (7 ∷ []) 1 refl refl (next here (receive reply refl))

first_cause_wins_example :
    (err_of {C = ℕ} (stop (some timeout) new_mux) ≡ some timeout)
    × ((linked : Option ℕ) → send linked (stop (some timeout) new_mux) ≡ some timeout)
first_cause_wins_example = first_cause_wins config new_mux timeout refl here

reused_key_unanswered_example :
    (m : Mux ℕ) × Run config new_mux m
    × (m.calls 1 ≡ active echo (7 ∷ []) none (leaving (ok reply)))
    × (m.calls 2 ≡ active (7 ∷ 3 ∷ []) (7 ∷ []) none waiting)
    × (m.pending (7 ∷ []) ≡ some 2)
    × (let left : Mux ℕ = finish 1 (7 ∷ []) m (active echo (7 ∷ []) none (returned (ok reply))) in
        Step config m left
        × (left.pending (7 ∷ []) ≡ none)
        × (left.calls 2 ≡ active (7 ∷ 3 ∷ []) (7 ∷ []) none waiting)
        × ((n : Mux ℕ) × Step config left n
            × (n.calls 2 ≡ active (7 ∷ 3 ∷ []) (7 ∷ []) none waiting)
            × (n.handled ≡ (handler_of config, 7 ∷ 4 ∷ []) ∷ [])
            × (n.pending (7 ∷ []) ≡ none)))
unfolding response_key
reused_key_unanswered_example =
    reused_key_unanswered config echo (7 ∷ 3 ∷ []) reply (7 ∷ 4 ∷ []) (7 ∷ []) refl refl refl refl

-- Without a replier the frame goes to the other handler.
unmatched_handler : handler_of config ≡ by_unsolicited
unfolding handler_of
unmatched_handler = refl

-- "0100" asks and "0110" answers.
abbrev response_mti : Bytes
response_mti = b'0' ∷ b'1' ∷ b'1' ∷ b'0' ∷ []

with_mti-TextsAt :
    (mti : Bytes) → TextsAt (with_mti mti) schema.max_de (3 ∷ 2 ∷ []) (code_text ∷ pan_text ∷ [])
unfolding set_field unset new_message field
with_mti-TextsAt mti =
    (ground arith, ground arith, refl, refl, (ground arith, ground arith, refl, refl, tt))

with_mti-IsBuilt : (mti : Bytes) → length mti ≡ 4 → IsBuilt schema (with_mti mti)
with_mti-IsBuilt mti n =
    Built-IsBuilt schema schema-IsRoomy (with_mti mti) (with_mti-Built mti n) (mti_IsWritable mti n)

field_keyer-marshal_example :
    (sent got : Bytes) × (marshal schema (with_mti mti_digits) [] ≡ ok sent)
    × (marshal schema (with_mti response_mti) [] ≡ ok got)
    × (field_keyer schema true (3 ∷ 2 ∷ []) sent ≡ ok (join_bar (code_text ∷ pan_text ∷ [])))
    × (field_keyer schema true (3 ∷ 2 ∷ []) got ≡ ok (join_bar (code_text ∷ pan_text ∷ [])))
field_keyer-marshal_example =
    field_keyer-marshal schema true (with_mti mti_digits) (with_mti response_mti) (3 ∷ 2 ∷ [])
      (code_text ∷ pan_text ∷ []) (with_mti-IsBuilt mti_digits refl)
      (with_mti-IsBuilt response_mti refl) (with_mti-TextsAt mti_digits)
      (with_mti-TextsAt response_mti)
