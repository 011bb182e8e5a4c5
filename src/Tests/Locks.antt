-- ===== src/Tests/Locks.antt =====
-- Idempotency keys on the server in memory.
use qtip_challenge.Base.{List, [], ◌∷◌, All, String, ◌≡◌, ◌*◌, refl, none, some, false}
use qtip_challenge.Base.Int.{ℤ, pos, ◌-ℤ◌, ◌≤ℤ◌, div_floor, div_trunc}
use qtip_challenge.Base.Decimal.{itoa}
use qtip_challenge.Base.Decimal.Laws.{value}
use qtip_challenge.Domain.Retry.{second}
use qtip_challenge.Redis.Idempotency.{
  idempotency_key, IdempotencyRecord, unix, write_lock, idempotency_script, reclaim_if_old,
  reclaim_script, script_answer, set_processing, try_reclaim_stale,
}
use qtip_challenge.Redis.Idempotency.Lock.{
  Holds, lock_of, contend, set_processing_excludes, try_reclaim_stale_moves,
}
use qtip_challenge.Tests.Server.{
  Keys, stored, memory, memory-IsRedis, plain_formats, encode, decode, to_number,
  plain_formats-IsFaithful,
}

abbrev empty : Keys
empty k = none

abbrev attempt : String
attempt = "t-1#0"

abbrev done : IdempotencyRecord
done = record {
  status = "completed";
  worker_id = "";
  started_at = "";
  completed_at = "2026-01-01T00:00:00Z";
}

-- The key of the attempt holds this record.
abbrev holding : IdempotencyRecord → Keys
holding rec = stored (idempotency_key attempt) (some (plain_formats.encode rec)) empty

abbrev old_lock : IdempotencyRecord
old_lock = lock_of memory plain_formats "pod:1" (pos 0)

abbrev rivals : List (ℤ × String)
rivals = (pos second, "pod:2") ∷ (pos (2 * second), "pod:1") ∷ []

set_processing_excludes_example :
    let s' = (set_processing memory plain_formats (pos 60) (pos 0) attempt "pod:1" empty).1 in
    let (answers, t) = contend memory plain_formats (pos 60) attempt rivals s' in
    All (λ b. b ≡ false) answers × Holds memory plain_formats attempt old_lock t
unfolding set_processing idempotency_script write_lock script_answer idempotency_key to_number itoa
    value
set_processing_excludes_example =
    set_processing_excludes memory plain_formats memory-IsRedis plain_formats-IsFaithful (pos 60)
      (pos 0) attempt "pod:1" rivals empty refl

try_reclaim_stale_moves_example :
    (div_trunc (pos (2 * second)) second ≤ℤ unix (pos (3 * second)) -ℤ unix (pos 0))
    × Holds memory plain_formats attempt
        (lock_of memory plain_formats "pod:2" (pos (3 * second)))
        (try_reclaim_stale memory plain_formats
          (pos 60)
          (pos (3 * second))
          attempt
          "pod:2"
          (pos (2 * second))
          (holding old_lock)).1
unfolding try_reclaim_stale reclaim_script reclaim_if_old write_lock script_answer idempotency_key
    to_number encode decode itoa value div_floor div_trunc ◌-ℤ◌
try_reclaim_stale_moves_example =
    try_reclaim_stale_moves memory plain_formats memory-IsRedis plain_formats-IsFaithful (pos 60)
      (pos (3 * second)) attempt "pod:2" (holding old_lock) "pod:1" (pos 0) (pos (2 * second)) refl
      refl
