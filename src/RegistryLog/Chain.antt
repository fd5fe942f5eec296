-- ===== src/RegistryLog/Chain.antt =====
-- The log that calls of `append_log_entry` (capmesh/registry_log.py) build from the empty table.
use client_capmesh.Prelude.{
  ap, ◌∙◌, ℕ, suc, ◌+◌, String, ◌≡◌, refl, true, Option, none, some, List, [], ◌∷◌, ◌++◌, arith,
  ◌==◌, eq_refl, truthy, opt_eq, leb, length, Result, ok, err, inl, inr, Bool-cases, any, sym,
}
use client_capmesh.RegistryLog.Entries.{
  Entry, latest, later, stored, valid, compute_entry_hash, unhashed, hashed, append_log_entry,
  verify_from, in_sequence, verify_log_chain, get_log_head,
}

-- the last entry, and its hash or the one before
abbrev last_of : Entry → List Entry → Entry
last_of e [] = e
last_of e (f ∷ fs) = last_of f fs

abbrev pub last_hash : Option String → List Entry → Option String
last_hash prev [] = prev
last_hash prev (e ∷ es) = last_hash (some e.entry_hash) es

last_hash-of :
    (prev : Option String) (e : Entry) (es : List Entry)
    → last_hash prev (e ∷ es) ≡ some (last_of e es).entry_hash
last_hash-of prev e [] = refl
last_hash-of prev e (f ∷ fs) = last_hash-of (some e.entry_hash) f fs

opt_eq_refl : (o : Option String) → opt_eq o o ≡ true
opt_eq_refl none = refl
opt_eq_refl (some s) = eq_refl s

latest_nil : latest [] ≡ none
unfolding latest
latest_nil = refl

head_nil : get_log_head [] ≡ record { sequence = 0; hash = none }
unfolding get_log_head latest
head_nil = refl

later-after : (e f : Entry) → leb e.sequence f.sequence ≡ true → later e (some f) ≡ f
later-after e f h = rw h

-- the arguments of a call
pub record Request : Type 0 where
  pub event_type : String
  pub actor : String
  pub action : String
  pub payload_json : String
  pub target_uri : Option String

module _ (hash : String → String) (str : ℕ → String) where
  abbrev pub append : Request → List Entry → Result (List Entry)
  append q = append_log_entry hash str q.event_type q.actor q.action q.payload_json q.target_uri

  -- the log after a call: one that raises has written nothing
  abbrev pub after_call : Request → List Entry → List Entry
  after_call q log = elim (append q log) [ ok after ↦ after | err e ↦ log ]

  abbrev pub after_calls : List Request → List Entry → List Entry
  after_calls [] log = log
  after_calls (q ∷ qs) log = after_calls qs (after_call q log)

module _ (hash : String → String) (str : ℕ → String)
    (nonempty : (s : String) → truthy (hash s) ≡ true) where
  -- entries that continue a chain after a hash, numbered from n
  abbrev IsLog : Option String → ℕ → List Entry → Type 0
  IsLog prev n [] = Unit
  IsLog prev n (e ∷ es) =
      (e.sequence ≡ n)
      × (e.prev_hash ≡ prev)
      × (e.entry_hash ≡ compute_entry_hash hash str e prev)
      × IsLog (some e.entry_hash) (suc n) es

  in_sequence-IsLog :
      (prev : Option String) (n : ℕ) (es : List Entry) → IsLog prev n es → in_sequence es ≡ es
  in_sequence-IsLog prev n [] h = refl
  in_sequence-IsLog prev n (e ∷ []) h = refl
  in_sequence-IsLog prev n (e ∷ f ∷ fs) (s, p, c, rest) =
      let sorted = in_sequence-IsLog (some e.entry_hash) (suc n) (f ∷ fs) rest in
      let first : leb e.sequence f.sequence ≡ true = ground (arith, s, rest.0) in rw (sorted, first)

  stored_hash : (s : String) → stored (some (hash s)) ≡ some (hash s)
  stored_hash s = rw (nonempty s)

  verify_from-IsLog :
      (prev : Option String) (n : ℕ) (es : List Entry)
      → IsLog prev n es
      → stored prev ≡ prev
      → verify_from hash str prev es ≡ valid (last_hash prev es)
  unfolding verify_from
  verify_from-IsLog prev n [] h k = refl
  verify_from-IsLog prev n (e ∷ es) (s, p, c, rest) k =
      let kept : stored (some e.entry_hash) ≡ some e.entry_hash = rw c (stored_hash _) in
      let links : stored e.prev_hash ≡ prev = rw p k in
      let same : opt_eq prev prev ≡ true = opt_eq_refl prev in
      let fits : (compute_entry_hash hash str e prev == e.entry_hash) ≡ true = rw c (eq_refl _) in
      let later_ones = verify_from-IsLog (some e.entry_hash) (suc n) es rest kept in
      rw (links, same, fits) later_ones

  sequence-last_of :
      (prev : Option String) (n : ℕ) (e : Entry) (es : List Entry)
      → IsLog prev n (e ∷ es)
      → (last_of e es).sequence ≡ n + length es
  sequence-last_of prev n e [] (s, p, c, h) = omega (arith, s)
  sequence-last_of prev n e (f ∷ fs) (s, p, c, rest) =
      let later_ones = sequence-last_of (some e.entry_hash) (suc n) f fs rest in
      omega (arith, later_ones)

  latest-IsLog :
      (prev : Option String) (n : ℕ) (e : Entry) (es : List Entry)
      → IsLog prev n (e ∷ es)
      → latest (e ∷ es) ≡ some (last_of e es)
  unfolding latest
  latest-IsLog prev n e [] h = refl
  latest-IsLog prev n e (f ∷ fs) h =
      let below = latest-IsLog (some e.entry_hash) (suc n) f fs h.3 in
      let number = sequence-last_of prev n e (f ∷ fs) h in
      let after : leb e.sequence (last_of f fs).sequence ≡ true = ground (arith, number, h.0) in
      ap (λ l. some (later e l)) below ∙ ap some (later-after e _ after)

  append-IsLog :
      (prev : Option String) (n : ℕ) (es : List Entry) (e : Entry)
      → IsLog prev n es
      → e.sequence ≡ n + length es
      → e.prev_hash ≡ last_hash prev es
      → e.entry_hash ≡ compute_entry_hash hash str e (last_hash prev es)
      → IsLog prev n (es ++ (e ∷ []))
  append-IsLog prev n [] e h s p c = (omega (arith, s), p, c, _)
  append-IsLog prev n (f ∷ fs) e (fs_s, fs_p, fs_c, rest) s p c =
      (fs_s, fs_p, fs_c, append-IsLog (some f.entry_hash) (suc n) fs e rest (omega (arith, s)) p c)

  new_entry :
      (q : Request) (log : List Entry)
      → IsLog none 1 log
      → IsLog none 1 (
          log
          ++ (hashed hash str
                (unhashed q.event_type q.actor q.action q.payload_json q.target_uri (latest log))
              ∷ []))
  new_entry q [] h =
      let new =
        hashed hash str (unhashed q.event_type q.actor q.action q.payload_json q.target_uri none) in
      let chained : IsLog none 1 ([] ++ (new ∷ [])) = append-IsLog none 1 [] new h refl refl refl in
      rw latest_nil chained
  new_entry q (e ∷ es) h =
      let newest = latest-IsLog none 1 e es h in
      let number = sequence-last_of none 1 e es h in
      let linked = last_hash-of none e es in
      let last = last_of e es in
      let new =
        hashed hash str
          (unhashed q.event_type q.actor q.action q.payload_json q.target_uri (some last)) in
      let chained : IsLog none 1 ((e ∷ es) ++ (new ∷ [])) =
        append-IsLog none 1 (e ∷ es) new h (omega (arith, number)) (sym linked) (rw linked refl) in
      rw newest chained

  call-IsLog :
      (q : Request) (log : List Entry) → IsLog none 1 log → IsLog none 1 (after_call hash str q log)
  unfolding append_log_entry
  call-IsLog q log h =
      let new =
        hashed hash str
          (unhashed q.event_type q.actor q.action q.payload_json q.target_uri (latest log)) in
      elim (Bool-cases (any (λ (f : Entry). f.entry_hash == new.entry_hash) log)) [
        | inl e ↦ rw (after_call, e) h
        | inr e ↦ rw (after_call, e) (new_entry q log h)
      ]

  calls-IsLog :
      (qs : List Request) (log : List Entry)
      → IsLog none 1 log
      → IsLog none 1 (after_calls hash str qs log)
  calls-IsLog [] log h = h
  calls-IsLog (q ∷ qs) log h = calls-IsLog qs (after_call hash str q log) (call-IsLog q log h)

  head-IsLog :
      (log : List Entry)
      → IsLog none 1 log
      → get_log_head log ≡ record { sequence = length log; hash = last_hash none log }
  unfolding get_log_head
  head-IsLog [] h = head_nil
  head-IsLog (e ∷ es) h =
      let number : (last_of e es).sequence ≡ length (e ∷ es) =
        omega (arith, sequence-last_of none 1 e es h) in
      rw (get_log_head, latest-IsLog none 1 e es h, number, last_hash-of none e es)

  log_verifies :
      (log : List Entry)
      → IsLog none 1 log
      → (verify_log_chain hash str log
          ≡ record { entries = length log; check = valid (get_log_head log).hash })
        × ((get_log_head log).sequence ≡ length log)
  unfolding verify_log_chain
  log_verifies log h =
      let head = head-IsLog log h in
      let chain = verify_from-IsLog none 1 log h refl in
      let order = in_sequence-IsLog none 1 log h in (rw (head, order, chain), rw head)

  -- Whatever entries are appended to the empty log, refused calls included, the chain verifies, with
  -- the number of its entries and with the hash that `get_log_head` shows; and the sequence that it
  -- shows is the number of entries. The only thing asked of the hash is that it is no empty text.
  pub appended-verifies :
      (qs : List Request)
      → (verify_log_chain hash str (after_calls hash str qs []) ≡ record {
        entries = length (after_calls hash str qs []);
        check = valid (get_log_head (after_calls hash str qs [])).hash;
      })
        × ((get_log_head (after_calls hash str qs [])).sequence
            ≡ length (after_calls hash str qs []))
  appended-verifies qs = log_verifies (after_calls hash str qs []) (calls-IsLog qs [] _)
