-- ===== src/Retry/Config.antt =====
-- internal/util/retry/options.go. A duration is an int64 of nanoseconds.
use milvus_backup.Base.{ℕ, ◌*◌, ◌^◌, ◌≤◌, ◌<◌, List, [], ◌∷◌, if◌then◌else◌, arith, All}
use milvus_backup.Base.Int64.{Int64, mul64, lt64}

pub record Config : Type 0 where
  pub attempts : ℕ
  pub sleep : Int64
  pub max_sleep_time : Int64

abbrev pub millisecond : ℕ
millisecond = 1000000

unfoldable pub new_default_config : Config
new_default_config = record {
  attempts = 10;
  sleep = 200 * millisecond;
  max_sleep_time = 3000 * millisecond;
}

-- The options are closures over the configuration; each has a constructor.
pub data RetryOption : Type 0 where
  attempts sleep max_sleep_time : ℕ → RetryOption

unfoldable pub apply : RetryOption → Config → Config
apply (attempts n) c = record c { attempts = n }
apply (sleep d) c =
    let c' = record c { sleep = d } in
    if lt64 c'.max_sleep_time (mul64 c'.sleep 2)
    then record c' { max_sleep_time = mul64 2 c'.sleep }
    else c'
apply (max_sleep_time d) c =
    if lt64 d (mul64 c.sleep 2)
    then record c { max_sleep_time = mul64 2 c.sleep }
    else record c { max_sleep_time = d }

unfoldable pub configure : List RetryOption → Config → Config
unfolding apply
configure [] c = c
configure (o ∷ opts) c = configure opts (apply o c)

-- A pause can be doubled without passing the longest one, and nothing overflows.
pub record IsSpaced (c : Config) : Type 0 where
  pub doubled : 2 * c.sleep ≤ c.max_sleep_time
  pub small : c.max_sleep_time < 2 ^ 62

-- The duration of an option is positive or zero, and its double fits.
abbrev pub Fits : RetryOption → Type 0
Fits (attempts n) = Unit
Fits (sleep d) = d < 2 ^ 61
Fits (max_sleep_time d) = d < 2 ^ 62

apply-IsSpaced : (o : RetryOption) (c : Config) → Fits o → IsSpaced c → IsSpaced (apply o c)
unfolding apply lt64 mul64
apply-IsSpaced (attempts n) c f h = ground arith
apply-IsSpaced (sleep d) c f h = ground arith
apply-IsSpaced (max_sleep_time d) c f h = ground arith

configure_step :
    (opts : List RetryOption) (c : Config)
    → All Fits opts
    → IsSpaced c
    → IsSpaced (configure opts c)
unfolding configure
configure_step [] c f h = h
configure_step (o ∷ opts) c (fo, fs) h =
    configure_step opts (apply o c) fs (apply-IsSpaced o c fo h)

-- Whatever options are given whose durations fit, in whatever order, the longest pause is at least
-- twice the first one, and below 2 ^ 62.
pub configure-IsSpaced :
    (opts : List RetryOption) → All Fits opts → IsSpaced (configure opts new_default_config)
unfolding new_default_config
configure-IsSpaced opts f = configure_step opts new_default_config f (omega arith)
