-- ===== src/Env.antt =====
-- What a message handler reads besides the message: the node's name, the clock, the configuration watcher
-- of zk.py, and the helpers on messages that the handlers of the processes share.
use flow_first.Base.{ℕ, String, true, false, Option, none, some, List, [], ◌∷◌}
use flow_first.Base.Int.{ℤ}
use flow_first.Base.Result.{Result, ok}
use flow_first.Json.{Json, Fields, end, field, get_field, put_field}
use flow_first.Numbers.{Floats, text_of_int}
use flow_first.Config.{Cache, get_int, get_float}

pub record Env : Type 0 where
  pub node_name : String
  -- time.strftime, as the n-th call of a handler reads it, and int(time.time() * 1000)
  pub now : ℕ → String
  pub now_ms : ℤ
  -- _config_watcher: `none` in degraded mode
  pub watcher : Option Cache
  pub floats : Floats
  -- hashlib.sha256(text.encode()).hexdigest()
  pub sha256_hex : String → String
  -- repr of a list or a dict, inside an f-string
  pub repr : Json → String

-- str(value)
unfoldable pub str_of : Env → Json → String
unfolding text_of_int
str_of env Json.null = "None"
str_of env (Json.bool true) = "True"
str_of env (Json.bool false) = "False"
str_of env (Json.int n) = text_of_int n
str_of env (Json.float x) = x
str_of env (Json.str s) = s
str_of env (Json.arr l) = env.repr (Json.arr l)
str_of env (Json.obj d) = env.repr (Json.obj d)

-- data.get(key, default)
abbrev or_json : Option Json → Json → Json
or_json none default = default
or_json (some v) default = v

abbrev pub field_or : Fields → String → Json → Json
field_or msg key default = or_json (get_field msg key) default

-- a dict literal
abbrev pub fields : List (String × Json) → Fields
fields [] = end
fields ((key, v) ∷ rest) = field key v (fields rest)

-- data[key] = value, one after the other
unfoldable pub put_fields : Fields → List (String × Json) → Fields
unfolding put_field
put_fields msg [] = msg
put_fields msg ((key, v) ∷ rest) = put_fields (put_field msg key v) rest

-- an entry of a message's history, with the n-th reading of the clock
abbrev pub entry_fields : Env → ℕ → String → List (String × Json) → Fields
entry_fields env n name rest = fields (
    ("stage", Json.str name)
    ∷ ("timestamp", Json.str (env.now n))
    ∷ ("processed_by", Json.str env.node_name)
    ∷ rest)

unfoldable pub stage : Env → ℕ → String → List (String × Json) → Json
stage env n name rest = Json.obj (entry_fields env n name rest)

-- _config_watcher.get_int(key) if _config_watcher else default
abbrev config_int : Floats → Option Cache → String → ℤ → Result ℤ
config_int floats none key default = ok default
config_int floats (some cache) key default = get_int floats cache key

abbrev config_float : Floats → Option Cache → String → String → Result String
config_float floats none key default = ok default
config_float floats (some cache) key default = get_float floats cache key

unfoldable pub int_setting : Env → String → ℤ → Result ℤ
unfolding get_int
int_setting env key default = config_int env.floats env.watcher key default

unfoldable pub float_setting : Env → String → String → Result String
unfolding get_float
float_setting env key default = config_float env.floats env.watcher key default
