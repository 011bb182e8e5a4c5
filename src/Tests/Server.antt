-- ===== src/Tests/Server.antt =====
-- A key-value server in memory, and a format for its records, that behave as the adapters expect.
use Prim.Native.Char.{code}
use Prim.Native.String.{[] as end, ◌∷◌ as ◌before◌}
use qtip_challenge.Base.{
  ℕ, suc, String, Option, none, some, ◌≡◌, ◌∙◌, ◌⊎◌, inl, inr, ◌==◌, refl, arith, ap, str_eq,
  if◌then◌else◌,
}
use qtip_challenge.Base.Int.{ℤ, pos, negsuc, sub_ℕ}
use qtip_challenge.Base.Decimal.{itoa, format_nat}
use qtip_challenge.Base.Decimal.Laws.{
  value as read_digits, value-format_nat, StartsWithDigit, format_nat-StartsWithDigit,
}
use qtip_challenge.Domain.Errors.{GoError, plain}
use qtip_challenge.Redis.Client.{Cmd, value, nil_reply, error, KeyCommands, IsRedis}
use qtip_challenge.Redis.Idempotency.{Formats, IdempotencyRecord}
use qtip_challenge.Redis.Idempotency.Lock.{IsFaithful}

abbrev pub Keys : Type 0
Keys = String → Option String

abbrev pub stored : String → Option String → Keys → Keys
stored k v s j = if str_eq k j then v else s j

abbrev ran : Option ℤ × Keys → Keys → Cmd ℤ × Keys
ran (none, t) s = (error (plain "ERR script"), s)
ran (some n, t) s = (value n, t)

abbrev got : Option String → Keys → Cmd String × Keys
got none s = (nil_reply, s)
got (some v) s = (value v, s)

abbrev set_if : Option String → String → String → Keys → Cmd (Unit {0}) × Keys
set_if none k v s = (nil_reply, s)
set_if (some old) k v s = (value tt, stored k (some v) s)

abbrev pub memory : KeyCommands Keys
memory = record {
  read = λ k s. s k;
  write = λ k v ttl s. stored k (some v) s;
  delete = λ k s. stored k none s;
  eval_sha = λ f s. ran (f s) s;
  get = λ k s. got (s k) s;
  set_xx = λ k v ttl s. set_if (s k) k v s;
  del = λ k s. (value tt, stored k none s);
}

ran_lem :
    (x : Option ℤ × Keys) (s : Keys)
    → ((n : ℤ) × (x.0 ≡ some n) × (ran x s ≡ (value n, x.1)))
      ⊎ ((e : GoError) × (s' : Keys) × ((s' ≡ s) ⊎ (s' ≡ x.1)) × (ran x s ≡ (error e, s')))
ran_lem (none, t) s = inr (plain "ERR script", s, inl refl, refl)
ran_lem (some n, t) s = inl (n, refl, refl)

got_lem :
    (o : Option String) (s : Keys)
    → ((o ≡ none) × (got o s ≡ (nil_reply, s)))
      ⊎ (((v : String) × (o ≡ some v) × (got o s ≡ (value v, s)))
          ⊎ ((e : GoError) × (got o s ≡ (error e, s))))
got_lem none s = inl (refl, refl)
got_lem (some v) s = inr (inl (v, refl, refl))

set_if_lem :
    (o : Option String) (k v : String) (s : Keys)
    → ((o ≡ none) × (set_if o k v s ≡ (nil_reply, s)))
      ⊎ (((old : String) × (o ≡ some old) × (set_if o k v s ≡ (value tt, stored k (some v) s)))
          ⊎ ((e : GoError) × (s' : Keys) × (set_if o k v s ≡ (error e, s'))))
set_if_lem none k v s = inl (refl, refl)
set_if_lem (some old) k v s = inr (inl (old, refl, refl))

pub memory-IsRedis : IsRedis memory
memory-IsRedis = record {
  read-write = λ k j v ttl s. refl;
  read-delete = λ k j s. refl;
  eval_sha_lem = λ f s. ran_lem (f s) s;
  get_lem = λ k s. got_lem (s k) s;
  set_xx_lem = λ k v ttl s. set_if_lem (s k) k v s;
  del_lem = λ k s. inl refl;
}

-- A text before `rest`: each character behind a "1", and a "0" at its end.
unfoldable pub write_text : String → String → String
write_text end rest = ◌before◌ "0" rest
write_text (◌before◌ c s) rest = ◌before◌ "1" (◌before◌ c (write_text s rest))

unfoldable pub read_text : String → Option (String × String)
read_text end = none
read_text (◌before◌ x end) = if code x == b'0' then some ("", "") else none
read_text (◌before◌ x (◌before◌ c r)) =
    let more = read_text r in
    if code x == b'0'
    then some ("", ◌before◌ c r)
    else elim more [ none ↦ none | some (s, rest) ↦ some (◌before◌ c s, rest) ]

read-write_text : (s rest : String) → read_text (write_text s rest) ≡ some (s, rest)
unfolding read_text write_text
read-write_text end end = refl
read-write_text end (◌before◌ c r) = refl
read-write_text (◌before◌ c s) rest = ground (arith, read-write_text s rest)

unfoldable pub encode : IdempotencyRecord → String
unfolding write_text
encode r =
    write_text r.status
      (write_text r.worker_id (write_text r.started_at (write_text r.completed_at "")))

unfoldable pub decode : String → Option IdempotencyRecord
unfolding read_text
decode raw = elim (read_text raw) [
  | none ↦ none
  | some (a, r) ↦ elim (read_text r) [
    | none ↦ none
    | some (b, r') ↦ elim (read_text r') [
      | none ↦ none
      | some (c, r'') ↦ elim (read_text r'') [
        | none ↦ none
        | some (d, _) ↦
            some (record { status = a; worker_id = b; started_at = c; completed_at = d })
      ]
    ]
  ]
]

decode-encode : (r : IdempotencyRecord) → decode (encode r) ≡ some r
unfolding decode encode
decode-encode r =
    let d = write_text r.completed_at "" in
    let c = write_text r.started_at d in
    let b = write_text r.worker_id c in
    ground (
      arith,
      read-write_text r.status b,
      read-write_text r.worker_id c,
      read-write_text r.started_at d,
      read-write_text r.completed_at "",
    )

unfoldable pub to_number : String → Option ℤ
to_number end = none
to_number (◌before◌ c s) =
    if code c == b'-'
    then some (sub_ℕ 0 (read_digits 0 s))
    else some (pos (read_digits 0 (◌before◌ c s)))

abbrev pub plain_formats : Formats
plain_formats = record {
  encode = encode;
  decode = decode;
  decode_error = λ raw. plain "unexpected end of JSON input";
  to_number = to_number;
  rfc3339 = λ now. "2026-01-01T00:00:00Z";
}

to_number-digits :
    (s : String) (n : ℕ) → StartsWithDigit s → read_digits 0 s ≡ n → to_number s ≡ some (pos n)
unfolding to_number
to_number-digits end n h e = absurd h
to_number-digits (◌before◌ c s) n h e = ground (arith, h, e)

to_number-itoa : (n : ℤ) → to_number (itoa n) ≡ some n
unfolding itoa to_number
to_number-itoa (pos n) =
    to_number-digits (format_nat n) n (format_nat-StartsWithDigit n) (value-format_nat n)
to_number-itoa (negsuc n) =
    ap (λ (k : ℕ). some (sub_ℕ 0 k)) (value-format_nat (suc n)) ∙ ground arith

pub plain_formats-IsFaithful : IsFaithful plain_formats
plain_formats-IsFaithful = record { decode-encode = decode-encode; to_number-itoa = to_number-itoa }
