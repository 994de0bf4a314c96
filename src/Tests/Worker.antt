-- ===== src/Tests/Worker.antt =====
-- Runs of the theorems on the limits of addresses and on the index of pairing locations.
use pairfob.Prelude.{ℕ, ◌≡◌, refl, String, some, none, List, [], ◌∷◌, arith, lookup}
use pairfob.Json.{text, number, text_field}
use pairfob.Limits.{intent_ip}
use pairfob.Limits.Log.{Ask, answers, log_answers, answers-log_answers}
use pairfob.Locations.{LocRow, IndexCore, Request, new_index, fetch_all}
use pairfob.Locations.Holder.{held, holder_keeps}
use pairfob.Locations.Table.{restart_keeps}
use pairfob.Tests.{room_id, reference}

abbrev ask : (key : String) → (now : ℕ) → Ask
ask key now = record { key = key; limit = 2; now = now }

-- Two hits fill the bucket of `a`, and the window passes.
abbrev asked : List Ask
asked = ask "a" 10 ∷ ask "a" 20 ∷ ask "b" 20 ∷ ask "a" 30 ∷ ask "a" 600015 ∷ []

abbrev windows : String → ℕ
windows key = intent_ip.window_ms

answers-log_answers_example : answers windows [] asked ≡ log_answers windows [] asked
answers-log_answers_example =
    answers-log_answers windows asked
      (omega arith, (omega arith, (omega arith, (omega arith, (omega arith, tt)))))

abbrev posted : (path : String) → (loc daemon_id : String) → (now exp : ℕ) → Request
posted path loc daemon_id now exp = record {
  path = path;
  method = "POST";
  body =
      ("pair_loc", text loc)
      ∷ ("daemon_id", text daemon_id)
      ∷ ("pair_ref", text reference)
      ∷ ("exp", number exp)
      ∷ [];
  now = now;
}

-- A second computer wants the location, spelt otherwise, and asks to free it.
abbrev wanted : List Request
wanted =
    posted "/insert" "ab12o3" "d_11111111111111111111" 200 9000
    ∷ posted "/delete" "AB1203" "d_11111111111111111111" 300 0
    ∷ posted "/lookup" "AB1203" "" 400 0
    ∷ []

abbrev held_row : LocRow
held_row = record { pair_loc = "AB1203"; daemon_id = room_id; pair_ref = reference; exp = 1000 }

abbrev held_index : IndexCore
held_index = record { rows = ("AB1203", held_row) ∷ []; saved = none }

holder_keeps_example : held "AB1203" (fetch_all wanted held_index) ≡ some held_row
unfolding lookup text_field
holder_keeps_example =
    holder_keeps "AB1203" held_row wanted held_index refl
      ((omega arith, refl), ((omega arith, refl), ((omega arith, refl), tt)))

-- An insertion, a refused one, an expired lookup and a removal.
abbrev requests : List Request
requests =
    posted "/insert" "AB1203" room_id 100 1000
    ∷ posted "/insert" "ZZZZZZ" room_id 100 150
    ∷ posted "/insert" "AB1203" "d_11111111111111111111" 200 9000
    ∷ posted "/lookup" "ZZZZZZ" "" 300 0
    ∷ []

restart_keeps_example :
    new_index (fetch_all requests (new_index (some []))).saved
    ≡ fetch_all requests (new_index (some []))
restart_keeps_example = restart_keeps requests
