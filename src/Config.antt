-- ===== src/Config.antt =====
-- `loadConfig` (store-engine/src/config.ts): the settings, read from environment variables. The
-- parameter `number` is the conversion `Number(raw)` of the language, `none` where its result is no
-- integer.
pub mod Ranges
pub mod Loading
use mini_store.Prelude.{
  ℕ, ite, Bool, true, false, not, ◌||◌, Option, none, some, List, [], ◌∷◌, ◌++◌, ltb, ◌==◌,
  if◌then◌else◌, ℤ, pos, ltb_ℤ, Text, Text-discrete, text_keyed,
}
use mini_store.JsMap.{add}
use mini_store.Protocol.Command.{codes}
use mini_store.Protocol.Tokens.{trim, to_upper_case}
use mini_store.Protocol.Numbers.{max_safe_integer}
use mini_store.Protocol.Decimal.{decimal}

pub data Fsync : Type 0 where
  always everysec never : Fsync

pub record ServerConfig : Type 0 where
  pub host : Text
  pub port : ℤ
  pub max_line_bytes : ℤ
  pub max_keys : ℤ
  pub sweep_interval_ms : ℤ
  pub sweep_sample_size : ℤ
  pub dump_path : Text
  pub save_interval_ms : ℤ
  pub stats_port : ℤ
  pub aof_path : Text
  pub aof_fsync : Fsync
  pub requirepass : Option Text
  pub dashboard_password : Option Text
  pub disabled_commands : List Text

-- A value, or the error that is thrown with its message.
pub data Loaded (A : Type 0) : Type 0 where
  loaded : A → Loaded A
  invalid : (message : Text) → Loaded A

unfoldable pub and_then : {A B : Type 0} → Loaded A → (A → Loaded B) → Loaded B
and_then (loaded a) next = next a
and_then (invalid message) next = invalid message

abbrev pub Environment : Type 0
Environment = Text → Option Text

-- The numbers are held as `ℤ`, since `Number` may read a negative one; bounds are natural.
unfoldable pub in_range : (n : ℤ) → (min max : ℕ) → Bool
in_range n min max = not (ltb_ℤ n (pos min) || ltb_ℤ (pos max) n)

abbrev pub range_error : (raw name : Text) → (min max : ℕ) → Text
range_error raw name min max =
    codes "Invalid "
    ++ name
    ++ codes " \""
    ++ raw
    ++ codes "\": expected an integer in "
    ++ decimal min
    ++ codes ".."
    ++ decimal max

unfoldable pub checked : Option ℤ → (raw name : Text) → (min max : ℕ) → Loaded ℤ
unfolding in_range
checked none raw name min max = invalid (range_error raw name min max)
checked (some n) raw name min max =
    if in_range n min max then loaded n else invalid (range_error raw name min max)

-- `trim() || undefined`, and `trim()` with a default for what is unset or blank.
abbrev pub unless_empty : Text → Option Text
unless_empty [] = none
unless_empty (c ∷ t) = some (c ∷ t)

unfoldable pub trimmed : Option Text → Option Text
trimmed none = none
trimmed (some raw) = unless_empty (trim raw)

abbrev pub or_default : Option Text → Text → Text
or_default none fallback = fallback
or_default (some t) fallback = t

-- `split(',')`
unfoldable pub split_commas : Text → Text × List Text
split_commas [] = ([], [])
split_commas (c ∷ t) =
    let (piece, rest) = split_commas t in
    if c == b',' then ([], piece ∷ rest) else (c ∷ piece, rest)

abbrev pub add_name : Text → List Text → List Text
add_name [] names = names
add_name (c ∷ t) names = add names (c ∷ t)

unfoldable pub collect_names : List Text → List Text → List Text
collect_names [] names = names
collect_names (cmd ∷ rest) names = collect_names rest (add_name (to_upper_case (trim cmd)) names)

unfoldable pub disabled_from : Option Text → List Text
unfolding split_commas collect_names
disabled_from none = []
disabled_from (some t) = let (piece, rest) = split_commas t in collect_names (piece ∷ rest) []

abbrev pub fsync_error : Text → Text
fsync_error t =
    codes "Invalid MINISTORE_AOF_FSYNC \""
    ++ t
    ++ codes "\": expected 'always', 'everysec', or 'no'"

unfoldable pub read_fsync : Option Text → Loaded Fsync
read_fsync none = loaded everysec
read_fsync (some raw) =
    let t = trim raw in
    ite (Text-discrete t (codes "always")) (loaded always) (
      ite (Text-discrete t (codes "everysec")) (loaded everysec)
        (ite (Text-discrete t (codes "no")) (loaded never) (invalid (fsync_error t))))

module _ (number : Text → Option ℤ) where
  unfoldable pub parse_trimmed :
      Text → (raw : Text) → (fallback : ℕ) → (name : Text) → (min max : ℕ) → Loaded ℤ
  unfolding checked
  parse_trimmed [] raw fallback name min max = loaded (pos fallback)
  parse_trimmed (c ∷ t) raw fallback name min max = checked (number raw) raw name min max

  unfoldable pub parse_int_in_range :
      Option Text → (fallback : ℕ) → (name : Text) → (min max : ℕ) → Loaded ℤ
  unfolding parse_trimmed
  parse_int_in_range none fallback name min max = loaded (pos fallback)
  parse_int_in_range (some raw) fallback name min max =
      parse_trimmed (trim raw) raw fallback name min max

  abbrev pub setting : Environment → (name : Text) → (fallback min max : ℕ) → Loaded ℤ
  setting env name fallback min max = parse_int_in_range (env name) fallback name min max

  unfoldable pub load_config : Environment → Loaded ServerConfig
  unfolding read_fsync trimmed disabled_from parse_int_in_range
  load_config env = and_then (read_fsync (env (codes "MINISTORE_AOF_FSYNC"))) λ aof_fsync.
      and_then (setting env (codes "MINISTORE_PORT") 6380 1 65535) λ port.
        and_then (setting env (codes "MINISTORE_MAX_LINE_BYTES") 65536 1 max_safe_integer)
          λ max_line_bytes.
            and_then (setting env (codes "MINISTORE_MAX_KEYS") 1000 1 max_safe_integer) λ max_keys.
              and_then (setting env (codes "MINISTORE_SWEEP_INTERVAL_MS") 1000 1 max_safe_integer)
                λ sweep_interval_ms.
                  and_then (setting env (codes "MINISTORE_SWEEP_SAMPLE_SIZE") 20 1 max_safe_integer)
                    λ sweep_sample_size.
                      and_then
                        (setting env (codes "MINISTORE_SAVE_INTERVAL_MS") 60000 1 max_safe_integer)
                        λ save_interval_ms.
                          and_then (setting env (codes "MINISTORE_STATS_PORT") 8090 1 65535)
                            λ stats_port. loaded (record {
                              host =
                                  or_default (trimmed (env (codes "MINISTORE_HOST")))
                                    (codes "127.0.0.1");
                              port = port;
                              max_line_bytes = max_line_bytes;
                              max_keys = max_keys;
                              sweep_interval_ms = sweep_interval_ms;
                              sweep_sample_size = sweep_sample_size;
                              dump_path =
                                  or_default (trimmed (env (codes "MINISTORE_DUMP_PATH")))
                                    (codes "./data/dump.json");
                              save_interval_ms = save_interval_ms;
                              stats_port = stats_port;
                              aof_path =
                                  or_default (trimmed (env (codes "MINISTORE_AOF_PATH")))
                                    (codes "./data/appendonly.aof");
                              aof_fsync = aof_fsync;
                              requirepass = trimmed (env (codes "MINISTORE_REQUIREPASS"));
                              dashboard_password =
                                  trimmed (env (codes "MINISTORE_DASHBOARD_PASSWORD"));
                              disabled_commands =
                                  disabled_from
                                    (trimmed (env (codes "MINISTORE_DISABLED_COMMANDS")));
                            })
