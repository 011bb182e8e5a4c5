-- ===== src/Redis/Dlq/Laws.antt =====
-- SendToDLQ and ListDLQ of internal/adapters/redis/dlq_writer.go against a list of entries.
use qtip_challenge.Base.{
  ℕ, zero, suc, ◌+◌, String, ◌<>◌, none, List, [], ◌∷◌, ◌++◌, ◌≡◌, ◌⊎◌, inl, inr, refl, arith,
  is_some, str_eq, eq_refl, true, if◌then◌else◌,
}
use qtip_challenge.Base.Int.{ℤ, pos, ◌-ℤ◌}
use qtip_challenge.Domain.Task.{DlqEntry}
use qtip_challenge.Redis.Dlq.{
  ListCommands, EntryCodec, dlq_key, send_to_dlq, parse_entries, list_dlq,
}

abbrev pub take {ℓ} : {A : Type ℓ} → ℕ → List A → List A
take zero xs = []
take (suc n) [] = []
take (suc n) (x ∷ xs) = x ∷ take n xs

-- The texts of a list that hold these entries.
abbrev pub Encodes : EntryCodec → List DlqEntry → List String → Type 0
Encodes J [] [] = Unit
Encodes J (e ∷ es) (s ∷ ss) = (J.unmarshal s ≡ inl e) × Encodes J es ss
Encodes J _ _ = ⊥

-- Documented behaviour of the Redis lists, where `contents` is what a list holds: the pipeline that
-- replied without error appended the item, and LRANGE from 0 to n gives the first n + 1 items.
pub record IsLists {S : Type 0} (R : ListCommands S) (contents : String → S → List String)
    : Type 0 where
  pub push_lem :
      (k v : String) (ttl : ℤ) (s : S)
      → (is_some (R.push k v ttl s).0 ≡ true)
        ⊎ ((j : String)
            → contents j (R.push k v ttl s).1
              ≡ (if str_eq k j then contents k s ++ v ∷ [] else contents j s))
  pub llen_keeps : (k j : String) (s : S) → contents j (R.llen k s).1 ≡ contents j s
  pub lrange_lem :
      (k : String) (n : ℕ) (s : S)
      → (is_some (R.lrange k (pos 0) (pos n) s).0.0 ≡ true)
        ⊎ ((R.lrange k (pos 0) (pos n) s).0 ≡ (none, take (suc n) (contents k s)))

pred_pos : (n : ℕ) → pos (suc n) -ℤ pos 1 ≡ pos n
unfolding ◌-ℤ◌
pred_pos n = ground arith

Encodes-take :
    (J : EntryCodec) (n : ℕ) (es : List DlqEntry) (ss : List String)
    → Encodes J es ss
    → Encodes J (take n es) (take n ss)
Encodes-take J zero es ss h = tt
Encodes-take J (suc n) [] [] h = tt
Encodes-take J (suc n) (e ∷ es) (s ∷ ss) h = (h.0, Encodes-take J n es ss h.1)
Encodes-take J (suc n) [] (s ∷ ss) h = elim h [ ]
Encodes-take J (suc n) (e ∷ es) [] h = elim h [ ]

Encodes-append :
    (J : EntryCodec) (es : List DlqEntry) (ss : List String) (e : DlqEntry) (s : String)
    → Encodes J es ss
    → J.unmarshal s ≡ inl e
    → Encodes J (es ++ e ∷ []) (ss ++ s ∷ [])
Encodes-append J [] [] e s h q = (q, tt)
Encodes-append J (e' ∷ es) (s' ∷ ss) e s h q = (h.0, Encodes-append J es ss e s h.1 q)
Encodes-append J [] (s' ∷ ss) e s h q = elim h [ ]
Encodes-append J (e' ∷ es) [] e s h q = elim h [ ]

module _ {S : Type 0} (R : ListCommands S) (J : EntryCodec) where
  parse_entries_lem :
      (what : String) (i : ℕ) (es : List DlqEntry) (ss : List String)
      → Encodes J es ss
      → parse_entries R J what i ss ≡ (none, es)
  unfolding parse_entries
  parse_entries_lem what i [] [] h = refl
  parse_entries_lem what i (e ∷ es) (s ∷ ss) h =
      ground (arith, h.0, parse_entries_lem what (i + 1) es ss h.1)
  parse_entries_lem what i [] (s ∷ ss) h = elim h [ ]
  parse_entries_lem what i (e ∷ es) [] h = elim h [ ]

  module _ (contents : String → S → List String) (L : IsLists R contents) where
    -- The DLQ of a tenant and type holds these entries, oldest first.
    abbrev pub Queued : String → String → List DlqEntry → S → Type 0
    Queued tenant_id task_type es s = Encodes J es (contents (dlq_key tenant_id task_type) s)

    send_to_dlq-contents :
        (ttl : ℤ) (entry : DlqEntry) (payload : String) (s : S)
        → J.marshal entry ≡ inl payload
        → (send_to_dlq R J ttl entry s).0.0 ≡ none
        → let key = dlq_key entry.task.tenant_id entry.task.type in
          contents key (send_to_dlq R J ttl entry s).1 ≡ contents key s ++ payload ∷ []
    unfolding send_to_dlq
    send_to_dlq-contents ttl entry payload s m ok =
        let key = dlq_key entry.task.tenant_id entry.task.type in
        let s' = (R.push key payload ttl s).1 in
        elim (L.push_lem key payload ttl s) [
          | inl failed ↦ absurd (ground (arith, m, failed))
          | inr law ↦ ground (arith, m, law key, L.llen_keeps key key s', eq_refl key)
        ]

    -- On lists that behave as documented, SendToDLQ without error puts the entry behind those that
    -- the queue of its tenant and type holds, where the text of the entry is read back as it.
    pub send_to_dlq-Queued :
        (ttl : ℤ) (entry : DlqEntry) (es : List DlqEntry) (payload : String) (s : S)
        → J.marshal entry ≡ inl payload
        → J.unmarshal payload ≡ inl entry
        → Queued entry.task.tenant_id entry.task.type es s
        → (send_to_dlq R J ttl entry s).0.0 ≡ none
        → Queued entry.task.tenant_id entry.task.type
            (es ++ entry ∷ [])
            (send_to_dlq R J ttl entry s).1
    send_to_dlq-Queued ttl entry es payload s m u h ok =
        rw (send_to_dlq-contents ttl entry payload s m ok) (Encodes-append J es _ entry payload h u)

    -- On lists that behave as documented, ListDLQ with a positive limit gives the oldest entries of
    -- a queue that holds entries only, at most `limit` many, or reports an error.
    pub list_dlq-Queued :
        (tenant_id task_type : String) (es : List DlqEntry) (n : ℕ) (s : S)
        → Queued tenant_id task_type es s
        → ((list_dlq R J tenant_id task_type (pos (suc n)) s).0 ≡ (none, take (suc n) es))
          ⊎ (is_some (list_dlq R J tenant_id task_type (pos (suc n)) s).0.0 ≡ true)
    unfolding list_dlq
    list_dlq-Queued tenant_id task_type es n s h =
        let key = dlq_key tenant_id task_type in
        let what = "dlq writer: ListDLQ " <> (tenant_id <> ("/" <> task_type)) in
        let parsed =
          parse_entries_lem what 0 (take (suc n) es) (take (suc n) (contents key s))
            (Encodes-take J (suc n) es (contents key s) h) in
        elim (L.lrange_lem key n s) [
          | inl failed ↦ ground (arith, pred_pos n, failed)
          | inr law ↦ ground (arith, pred_pos n, law, parsed)
        ]
