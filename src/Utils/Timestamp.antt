-- ===== src/Utils/Timestamp.antt =====
-- ComposeTS and ParseTS of core/utils/convert_util.go.
use milvus_backup.Base.{ℕ, ◌+◌, ◌*◌, ◌/◌, ◌%◌, ◌^◌, ◌<◌, ◌≡◌, arith}
use milvus_backup.Base.Int64.{Int64, u64}

abbrev pub logical_bits : ℕ
logical_bits = 18

-- What time.Unix is given: seconds, and nanoseconds below a second.
pub record Time : Type 0 where
  pub seconds : ℕ
  pub nanoseconds : ℕ

-- uint64((physical << logicalBits) + logical)
unfoldable pub compose_ts : Int64 → Int64 → ℕ
compose_ts physical logical = (physical * 2 ^ logical_bits % u64 + logical) % u64

-- `ts & mask` is the remainder, and `ts >> 18` is below 2 ^ 46, so int64 keeps it.
unfoldable pub parse_ts : ℕ → Time × ℕ
parse_ts ts =
    let logical = ts % 2 ^ logical_bits in
    let physical = ts / 2 ^ logical_bits in
    (record { seconds = physical / 1000; nanoseconds = physical % 1000 * 1000000 }, logical)

abbrev pub milliseconds : Time → ℕ
milliseconds t = t.seconds * 1000 + t.nanoseconds / 1000000

-- ParseTS gives back, to the millisecond, the time and the logical part that ComposeTS was given,
-- for a time below 2 ^ 46 ms and a logical part below 2 ^ 18.
pub parse_ts-compose_ts :
    (physical logical : ℕ)
    → physical < 2 ^ 46
    → logical < 2 ^ 18
    → (milliseconds (parse_ts (compose_ts physical logical)).0 ≡ physical)
      × ((parse_ts (compose_ts physical logical)).1 ≡ logical)
unfolding parse_ts compose_ts
parse_ts-compose_ts physical logical hp hl = omega arith

-- ComposeTS rebuilds every 64-bit timestamp from what ParseTS reads of it.
pub compose_ts-parse_ts :
    (ts : ℕ) → ts < u64 → compose_ts (milliseconds (parse_ts ts).0) (parse_ts ts).1 ≡ ts
unfolding parse_ts compose_ts
compose_ts-parse_ts ts h = omega arith
