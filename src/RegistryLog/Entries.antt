-- ===== src/RegistryLog/Entries.antt =====
-- capmesh/registry_log.py: the table `registry_log` and the operations on it. SHA-256 (`hash`) and
-- the decimal text of a number (`str`) are parameters, the payload is the text that `json_dumps`
-- gives. The random key and the time of an entry, which no operation reads, are left out.
use client_capmesh.Prelude.{
  ℕ, ◌+◌, String, not, Option, none, some, List, [], ◌∷◌, ◌++◌, ◌==◌, ◌+++◌, present, or_default,
  opt_eq, any, order_by, leb, length, Result, ok, err, integrity_error, if◌then◌else◌,
}

pub record Entry : Type 0 where
  pub sequence : ℕ
  pub event_type : String
  pub actor : String
  pub target_uri : Option String
  pub action : String
  pub payload_json : String
  pub prev_hash : Option String
  pub entry_hash : String

-- "|".join(parts)
abbrev pub join : List String → String
join [] = ""
join (part ∷ []) = part
join (part ∷ next ∷ parts) = part +++ ("|" +++ join (next ∷ parts))

-- the row of the highest sequence: ORDER BY sequence DESC LIMIT 1, where sequences are unique
abbrev pub later : Entry → Option Entry → Entry
later e none = e
later e (some f) = if leb e.sequence f.sequence then f else e

unfoldable pub latest : List Entry → Option Entry
latest [] = none
latest (e ∷ es) = some (later e (latest es))

-- a column that is read as None when it is empty
abbrev pub stored : Option String → Option String
stored none = none
stored (some s) = if present (some s) then some s else none

-- why a chain is broken
pub data Mismatch : Type 0 where
  prev_hash_mismatch entry_hash_mismatch : Mismatch

-- the verdict on a chain, with the last hash or the sequence where it is broken
pub data Check : Type 0 where
  valid : Option String → Check
  broken : ℕ → Mismatch → Check

pub record Verification : Type 0 where
  pub entries : ℕ
  pub check : Check

pub record Head : Type 0 where
  pub sequence : ℕ
  pub hash : Option String

-- ORDER BY sequence ASC
abbrev pub in_sequence : List Entry → List Entry
in_sequence = order_by (λ e f. leb e.sequence f.sequence)

-- the new row, before its hash is known
abbrev pub unhashed :
    (event_type actor action payload_json : String) (target_uri : Option String)
    → Option Entry
    → Entry
unhashed event_type actor action payload_json target_uri none = record {
  sequence = 1;
  event_type = event_type;
  actor = actor;
  target_uri = target_uri;
  action = action;
  payload_json = payload_json;
  prev_hash = none;
  entry_hash = "";
}
unhashed event_type actor action payload_json target_uri (some last) = record {
  sequence = last.sequence + 1;
  event_type = event_type;
  actor = actor;
  target_uri = target_uri;
  action = action;
  payload_json = payload_json;
  prev_hash = some last.entry_hash;
  entry_hash = "";
}

module _ (hash : String → String) (str : ℕ → String) where
  -- the text that is hashed
  abbrev pub combined : Entry → Option String → String
  combined e prev_hash = join (
      str e.sequence
      ∷ e.event_type
      ∷ e.actor
      ∷ or_default e.target_uri ""
      ∷ e.action
      ∷ e.payload_json
      ∷ or_default prev_hash ""
      ∷ [])

  abbrev pub compute_entry_hash : Entry → Option String → String
  compute_entry_hash e prev_hash = hash (combined e prev_hash)

  abbrev pub hashed : Entry → Entry
  hashed e = record e { entry_hash = compute_entry_hash e e.prev_hash }

  -- The columns `sequence` and `entry_hash` are UNIQUE; a new sequence is one more than the highest.
  unfoldable pub append_log_entry :
      (event_type actor action payload_json : String) (target_uri : Option String)
      → List Entry
      → Result (List Entry)
  append_log_entry event_type actor action payload_json target_uri log =
      let e = hashed (unhashed event_type actor action payload_json target_uri (latest log)) in
      if any (λ (f : Entry). f.entry_hash == e.entry_hash) log
      then err integrity_error
      else ok (log ++ (e ∷ []))

  unfoldable pub verify_from : Option String → List Entry → Check
  verify_from prev_hash [] = valid prev_hash
  verify_from prev_hash (e ∷ es) =
      let rest = verify_from (some e.entry_hash) es in
      if not (opt_eq prev_hash (stored e.prev_hash))
      then broken e.sequence prev_hash_mismatch
      else if not (compute_entry_hash e (stored e.prev_hash) == e.entry_hash)
      then broken e.sequence entry_hash_mismatch
      else rest

  unfoldable pub verify_log_chain : List Entry → Verification
  verify_log_chain log = record { entries = length log; check = verify_from none (in_sequence log) }

unfoldable pub get_log_head : List Entry → Head
get_log_head log = elim (latest log) [
  | none ↦ record { sequence = 0; hash = none }
  | some e ↦ record { sequence = e.sequence; hash = some e.entry_hash }
]
