-- ===== src/Config.antt =====
-- The runtime configuration in ZooKeeper, from src/zookeeper/zk.py: the defaults, the watcher's cache with
-- its reads, the DataWatch callback, and `write_config`. The znodes are a dictionary from key to text.
pub mod Typed
pub mod Client
use flow_first.Base.{
  String, Bool, true, false, Option, none, some, List, [], ◌∷◌, ◌==◌, if◌then◌else◌,
}
use flow_first.Base.Int.{ℤ, pos}
use flow_first.Base.Dict.{Dict, get, put}
use flow_first.Base.Result.{Result, ok, raise}
use flow_first.Base.Text.{strip}
use flow_first.Json.{Json}
use flow_first.Numbers.{
  Number, int, float, Floats, int_of_text, text_of_number, int_of_number, float_of_number,
}

-- _CONFIG_DEFAULTS
abbrev pub config_defaults : Dict Number
config_defaults =
    ("flow2_high_threshold", float "30.0")
    ∷ ("flow1_counter_step", int (pos 10))
    ∷ ("flow2_scale_factor", float "1.15")
    ∷ ("flow3_remote_multiplier", int (pos 2))
    ∷ ("flow6_update_seq", int (pos 0))
    ∷ ("flow7_grace_period_s", int (pos 0))
    ∷ []

-- ConfigWatcher, by its one field
abbrev pub Cache : Type 0
Cache = Dict Number

abbrev pub or_number : Option Number → Number → Number
or_number none default = default
or_number (some n) default = n

module _ (floats : Floats) where
  abbrev wrap_int : Result ℤ → Option Number
  wrap_int (ok n) = some (int n)
  wrap_int (raise e) = none

  abbrev wrap_float : Result String → Option Number
  wrap_float (ok x) = some (float x)
  wrap_float (raise e) = none

  -- type(default)(raw); a ValueError is caught by both callers
  unfoldable pub parse_as : Number → String → Option Number
  parse_as (int n) raw = wrap_int (int_of_text raw)
  parse_as (float x) raw = wrap_float (floats.of_text raw)

  abbrev pub store : Cache → String → Option Number → Cache
  store cache key none = cache
  store cache key (some n) = put cache key n

  -- `default = _CONFIG_DEFAULTS[key]`, then the parse; the key is one of the defaults'
  abbrev pub parse_for : Option Number → String → Option Number
  parse_for none raw = none
  parse_for (some default) raw = parse_as default raw

  -- _load: an absent znode or a text that cannot be parsed leaves the cache
  unfoldable pub load : Cache → String → Option String → Cache
  unfolding parse_as put get strip
  load cache key none = cache
  load cache key (some text) = store cache key (parse_for (get config_defaults key) (strip text))

  -- The DataWatch callback of `key`. It writes the cache if the value differs, which is the same as
  -- writing it.
  unfoldable pub watch : Cache → String → Option String → Cache
  unfolding parse_as put get strip
  watch cache key none = cache
  watch cache key (some text) = store cache key (parse_for (get config_defaults key) (strip text))

  pub load_all : Cache → List (String × Number) → Dict String → Cache
  unfolding load get
  load_all cache [] znodes = cache
  load_all cache ((key, default) ∷ rest) znodes =
      load_all (load cache key (get znodes key)) rest znodes

  -- ConfigWatcher.__init__, with what the registered watches deliver later as calls of `watch`
  unfoldable pub start_watcher : Dict String → Cache
  unfolding load_all
  start_watcher znodes = load_all config_defaults config_defaults znodes

  unfoldable pub get_float : Cache → String → Result String
  unfolding get float_of_number
  get_float cache key =
      float_of_number floats
        (or_number (get cache key) (or_number (get config_defaults key) (float "0.0")))

  unfoldable pub get_int : Cache → String → Result ℤ
  unfolding get int_of_number
  get_int cache key =
      int_of_number floats
        (or_number (get cache key) (or_number (get config_defaults key) (int (pos 0))))

abbrev is_some : Option Number → Bool
is_some none = false
is_some (some n) = true

-- write_config, with the text that `str(value)` gives: it refuses an unknown key
unfoldable pub write_config : Dict String → String → String → Dict String × Bool
unfolding put get
write_config znodes key text =
    if is_some (get config_defaults key) then (put znodes key text, true) else (znodes, false)
