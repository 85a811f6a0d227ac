-- ===== src/Config/Loading.antt =====
-- About `loadConfig` as a whole: the settings of a configuration that was loaded, and the environments
-- from which one is.
use mini_store.Prelude.{
  inr, ◌⊎◌, inl, ℕ_discrete, ◌≡◌, ◌∙◌, refl, ap, subst, Option, none, some, arith, ite, ℤ, Text,
  Text-discrete,
}
use mini_store.Protocol.Command.{codes}
use mini_store.Protocol.Tokens.{trim}
use mini_store.Protocol.Numbers.{max_safe_integer}
use mini_store.Config.{
  ServerConfig, Fsync, always, everysec, never, Loaded, loaded, invalid, fsync_error, and_then,
  Environment, read_fsync, load_config,
}
use mini_store.Config.Ranges.{Reads, Reads-parse_int_in_range, parse_int_in_range-Reads}

abbrev pub word : Fsync → Text
word always = codes "always"
word everysec = codes "everysec"
word never = codes "no"

pub data Names : Option Text → Fsync → Type 0 where
  unset : Names none everysec
  named : (raw : Text) (f : Fsync) → trim raw ≡ word f → Names (some raw) f

-- The words in the order in which they are tried.
choose : Text → Loaded Fsync
choose t = ite (Text-discrete t (codes "always")) (loaded always) (
    ite (Text-discrete t (codes "everysec")) (loaded everysec)
      (ite (Text-discrete t (codes "no")) (loaded never) (invalid (fsync_error t))))

choose-word : (f : Fsync) → choose (word f) ≡ loaded f
unfolding choose Text-discrete ℕ_discrete
choose-word always = refl
choose-word everysec = refl
choose-word never = refl

is_word : (e f : Fsync) → e ≡ f → word e ≡ word f
is_word e f same = ap word same

tried :
    {P : Type 0} (d : Dec P) (e f : Fsync) (rest : Loaded Fsync)
    → ite d (loaded e) rest ≡ loaded f
    → P × (e ≡ f) ⊎ (rest ≡ loaded f)
tried (yes p) e f rest h = inl (p, ground arith)
tried (no n) e f rest h = inr h

choose-loaded : (t : Text) (f : Fsync) → choose t ≡ loaded f → t ≡ word f
unfolding choose
choose-loaded t f h = elim (tried (Text-discrete t (codes "always")) always f _ h) [
  | inl (is, same) ↦ is ∙ is_word always f same
  | inr h1 ↦ elim (tried (Text-discrete t (codes "everysec")) everysec f _ h1) [
    | inl (is, same) ↦ is ∙ is_word everysec f same
    | inr h2 ↦ elim (tried (Text-discrete t (codes "no")) never f _ h2) [
      | inl (is, same) ↦ is ∙ is_word never f same
      | inr h3 ↦ absurd (ground arith)
    ]
  ]
]

Names-read_fsync : (o : Option Text) (f : Fsync) → Names o f → read_fsync o ≡ loaded f
unfolding read_fsync choose
Names-read_fsync none _ unset = refl
Names-read_fsync (some _) _ (named raw f e) = rw e (choose-word f)

read_fsync-Names : (o : Option Text) (f : Fsync) → read_fsync o ≡ loaded f → Names o f
unfolding read_fsync choose
read_fsync-Names none f h = let same : everysec ≡ f = ground arith in subst (Names none) same unset
read_fsync-Names (some raw) f h = named raw f (choose-loaded (trim raw) f h)

value : {A : Type 0} → A → Loaded A → A
value d (loaded x) = x
value d (invalid message) = d

loaded_same : {A : Type 0} (a b : A) → loaded a ≡ loaded b → a ≡ b
unfolding value
loaded_same a b h = ap (value a) h

and_then_ends :
    {A B C : Type 0} (o : Loaded A) (next : A → Loaded B) (b : B)
    → and_then o next ≡ loaded b
    → ((a : A) → o ≡ loaded a → next a ≡ loaded b → C)
    → C
unfolding and_then
and_then_ends (loaded a) next b h use_parts = use_parts a refl h
and_then_ends (invalid message) next b h use_parts = absurd (ground arith)

and_then_settled :
    {A B : Type 0} (o : Loaded A) (next : A → Loaded B) (a : A)
    → o ≡ loaded a
    → (b : B) × (next a ≡ loaded b)
    → (b : B) × (and_then o next ≡ loaded b)
unfolding and_then
and_then_settled o next a e (b, h) = (b, rw e h)

module _ (number : Text → Option ℤ) (env : Environment) where
  -- What the settings with a range, and the policy, come to.
  pub record Settles (c : ServerConfig) : Type 0 where
    pub aof_fsync : Names (env (codes "MINISTORE_AOF_FSYNC")) c.aof_fsync
    pub port : Reads number 6380 1 65535 (env (codes "MINISTORE_PORT")) c.port
    pub max_line_bytes :
        Reads number 65536 1 max_safe_integer
          (env (codes "MINISTORE_MAX_LINE_BYTES"))
          c.max_line_bytes
    pub max_keys :
        Reads number 1000 1 max_safe_integer (env (codes "MINISTORE_MAX_KEYS")) c.max_keys
    pub sweep_interval_ms :
        Reads number 1000 1 max_safe_integer
          (env (codes "MINISTORE_SWEEP_INTERVAL_MS"))
          c.sweep_interval_ms
    pub sweep_sample_size :
        Reads number 20 1 max_safe_integer
          (env (codes "MINISTORE_SWEEP_SAMPLE_SIZE"))
          c.sweep_sample_size
    pub save_interval_ms :
        Reads number 60000 1 max_safe_integer
          (env (codes "MINISTORE_SAVE_INTERVAL_MS"))
          c.save_interval_ms
    pub stats_port : Reads number 8090 1 65535 (env (codes "MINISTORE_STATS_PORT")) c.stats_port

  -- In a configuration that was loaded the fsync policy is the one named, or the default, and
  -- each of the seven numbers is its default, where the variable is unset or blank, or the
  -- integer that the variable reads as, which is within the range of the setting.
  pub load_config-Settles : (c : ServerConfig) → load_config number env ≡ loaded c → Settles c
  unfolding load_config
  load_config-Settles c h = and_then_ends _ _ c h λ f ef h0. and_then_ends _ _ c h0 λ n0 e0 h1.
      and_then_ends _ _ c h1 λ n1 e1 h2. and_then_ends _ _ c h2 λ n2 e2 h3.
        and_then_ends _ _ c h3 λ n3 e3 h4. and_then_ends _ _ c h4 λ n4 e4 h5.
          and_then_ends _ _ c h5 λ n5 e5 h6. and_then_ends _ _ c h6 λ n6 e6 h7.
            subst Settles (loaded_same _ c h7) (record {
              aof_fsync = read_fsync-Names _ f ef;
              port = parse_int_in_range-Reads number _ _ _ (codes "MINISTORE_PORT") _ n0 e0;
              max_line_bytes =
                  parse_int_in_range-Reads number _ _ _ (codes "MINISTORE_MAX_LINE_BYTES") _ n1 e1;
              max_keys = parse_int_in_range-Reads number _ _ _ (codes "MINISTORE_MAX_KEYS") _ n2 e2;
              sweep_interval_ms =
                  parse_int_in_range-Reads number _ _ _ (codes "MINISTORE_SWEEP_INTERVAL_MS") _ n3
                    e3;
              sweep_sample_size =
                  parse_int_in_range-Reads number _ _ _ (codes "MINISTORE_SWEEP_SAMPLE_SIZE") _ n4
                    e4;
              save_interval_ms =
                  parse_int_in_range-Reads number _ _ _ (codes "MINISTORE_SAVE_INTERVAL_MS") _ n5
                    e5;
              stats_port =
                  parse_int_in_range-Reads number _ _ _ (codes "MINISTORE_STATS_PORT") _ n6 e6;
            })

  pub Settles-load_config :
      (c : ServerConfig) → Settles c → (d : ServerConfig) × (load_config number env ≡ loaded d)
  unfolding load_config
  Settles-load_config c s = and_then_settled _ _ c.aof_fsync (Names-read_fsync _ _ s.aof_fsync) (
      and_then_settled _ _ c.port
        (Reads-parse_int_in_range number _ _ _ (codes "MINISTORE_PORT") _ _ s.port)
        (and_then_settled _ _ c.max_line_bytes
          (Reads-parse_int_in_range number _ _ _ (codes "MINISTORE_MAX_LINE_BYTES") _ _
            s.max_line_bytes)
          (and_then_settled _ _ c.max_keys
            (Reads-parse_int_in_range number _ _ _ (codes "MINISTORE_MAX_KEYS") _ _ s.max_keys)
            (and_then_settled _ _ c.sweep_interval_ms
              (Reads-parse_int_in_range number _ _ _ (codes "MINISTORE_SWEEP_INTERVAL_MS") _ _
                s.sweep_interval_ms)
              (and_then_settled _ _ c.sweep_sample_size
                (Reads-parse_int_in_range number _ _ _ (codes "MINISTORE_SWEEP_SAMPLE_SIZE") _ _
                  s.sweep_sample_size)
                (and_then_settled _ _ c.save_interval_ms
                  (Reads-parse_int_in_range number _ _ _ (codes "MINISTORE_SAVE_INTERVAL_MS") _ _
                    s.save_interval_ms)
                  (and_then_settled _ _ c.stats_port
                    (Reads-parse_int_in_range number _ _ _ (codes "MINISTORE_STATS_PORT") _ _
                      s.stats_port)
                    (_, refl))))))))
