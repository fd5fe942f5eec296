-- ===== src/RegistryLog/Tests.antt =====
-- A log of two entries, and the theorems about it. The stand-in for SHA-256 here is a text with a
-- first character, so it is not empty; for texts of one length it is a constant.
use client_capmesh.Prelude.{
  ℕ, String, ◌≡◌, refl, true, none, some, [], ◌∷◌, map, Memᴰ, ok, any, length, ◌+++◌, truthy, ap,
  ◌∙◌, sym,
}
use text.Mathlib.TextLemmas.{cons-append}
use client_capmesh.RegistryLog.Entries.{
  Entry, valid, broken, prev_hash_mismatch, entry_hash_mismatch, append_log_entry, latest,
  verify_from, verify_log_chain, get_log_head, in_sequence,
}
use client_capmesh.RegistryLog.Chain.{Request, after_calls, appended-verifies}
use client_capmesh.RegistryLog.Tamper.{text_of, move_separator, same_head-texts, separator_moved}

abbrev marked : String → String
marked s = "#" +++ s

abbrev digit : ℕ → String
digit n = "1"

abbrev ingest : Request
ingest = record {
  event_type = "ingest";
  actor = "alice";
  action = "create";
  payload_json = "{}";
  target_uri = none;
}

abbrev first : Entry
first = record {
  sequence = 1;
  event_type = "ingest";
  actor = "alice";
  target_uri = none;
  action = "create";
  payload_json = "{}";
  prev_hash = none;
  entry_hash = "#1|ingest|alice||create|{}|";
}

appends : append_log_entry marked digit "ingest" "alice" "create" "{}" none [] ≡ ok (first ∷ [])
unfolding append_log_entry any latest
appends = refl

edited :
    (verify_log_chain marked digit (record first { actor = "bob" } ∷ [])).check
    ≡ broken 1 entry_hash_mismatch
unfolding verify_log_chain verify_from
edited = refl

cut :
    (verify_log_chain marked digit (record first { prev_hash = some "#0" } ∷ [])).check
    ≡ broken 1 prev_hash_mismatch
unfolding verify_log_chain verify_from
cut = refl

marked_nonempty : (s : String) → truthy (marked s) ≡ true
marked_nonempty s = rw cons-append refl

appended-verifies_example :
    (verify_log_chain marked digit (after_calls marked digit (ingest ∷ ingest ∷ []) []) ≡ record {
      entries = length (after_calls marked digit (ingest ∷ ingest ∷ []) []);
      check = valid (get_log_head (after_calls marked digit (ingest ∷ ingest ∷ []) [])).hash;
    })
    × ((get_log_head (after_calls marked digit (ingest ∷ ingest ∷ []) [])).sequence
        ≡ length (after_calls marked digit (ingest ∷ ingest ∷ []) []))
appended-verifies_example = appended-verifies marked digit marked_nonempty (ingest ∷ ingest ∷ [])

abbrev constant : String → String
constant s = "#"

abbrev sealed : Entry
sealed = record first { entry_hash = "#" }

same_head-texts_example :
    map (text_of constant digit) (in_sequence (sealed ∷ []))
    ≡ map (text_of constant digit) (in_sequence (sealed ∷ []))
unfolding verify_log_chain verify_from
same_head-texts_example =
    same_head-texts constant digit (λ s t. refl) (sealed ∷ []) (sealed ∷ []) (some "#")
      (λ e f me mf h. elim me [
        | Memᴰ.head a ↦ elim mf [
          | Memᴰ.head b ↦ ap (text_of constant digit) (a ∙ sym b)
          | Memᴰ.tail m ↦ elim m [ ]
        ]
        | Memᴰ.tail m ↦ elim m [ ]
      ])
      refl refl

separator_moved_example :
    verify_log_chain marked digit (map (move_separator marked digit "in" "gest") (first ∷ []))
    ≡ verify_log_chain marked digit (first ∷ [])
separator_moved_example = separator_moved marked digit "in" "gest" (first ∷ [])
