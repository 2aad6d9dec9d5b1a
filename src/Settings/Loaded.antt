-- ===== src/Settings/Loaded.antt =====
-- What settings that were loaded satisfy.
use tiny_cache.Base.{
  ℕ, zero, suc, ◌*◌, ◌≤◌, ◌<◌, ◌≡◌, ◌≢◌, ◌⊎◌, refl, ap, ap₂, sym, ◌∙◌, Text, Text-discrete, codes,
  ℤ, pos, negsuc, Bool, Bool-cases, subst, true, false, ◌&&◌, Option, Option-cases, none, some, inl,
  inr, List, [], ◌∷◌, if◌then◌else◌, arith,
}
use tiny_cache.Domain.{strip}
use tiny_cache.Settings.{
  Environ, Settings, SettingsError, Loading, loaded, rejected, field_violated, chain_loaded, less,
  among, mebibytes, check_minimum, check_maximum, read_int, get_env_int, get_env_choice,
  get_env_bool, new_settings, load_settings, log_levels, satisfies_fields, is_at_least_one, is_port,
  ◌>>=◌,
}

abbrev pub IsPositive : ℤ → Type 0
IsPositive z = (n : ℕ) × (z ≡ pos n) × (0 < n)

-- between 1 and a bound
abbrev pub IsUpTo : ℕ → ℤ → Type 0
IsUpTo bound z = (n : ℕ) × (z ≡ pos n) × (0 < n) × (n ≤ bound)

pub record IsAdmissible (s : Settings) : Type 0 where
  pub items : IsPositive s.max_items
  pub memory : IsPositive s.max_memory_mb
  pub value : (m : ℕ) × (s.max_memory_mb ≡ pos m) × IsUpTo (m * 1024 * 1024) s.max_value_bytes
  pub interval : IsPositive s.cleanup_interval
  pub port : IsUpTo 65535 s.port
  pub health_port : IsUpTo 65535 s.health_port
  pub log_level : among log_levels s.log_level ≡ true
  pub log_format : (s.log_format ≡ codes "text") ⊎ (s.log_format ≡ codes "json")
  pub backend : (s.backend ≡ codes "memory") ⊎ (s.backend ≡ codes "sqlite")

check_minimum-one :
    (name : Text) (z : ℤ) → check_minimum name (some (pos 1)) z ≡ loaded tt → IsPositive z
unfolding check_minimum
check_minimum-one name (pos zero) h = cc
check_minimum-one name (pos (suc n)) h = (suc n, refl, omega arith)
check_minimum-one name (negsuc n) h = cc

check_maximum-le :
    (name : Text) (bound n : ℕ)
    → check_maximum name (some (pos bound)) (pos n) ≡ loaded tt
    → n ≤ bound
unfolding check_maximum
check_maximum-le name bound n h = ground arith

module _ (environ : Environ) (name : Text) where
  bounded :
      (z : ℤ) (bound : ℕ)
      → check_minimum name (some (pos 1)) z ≡ loaded tt
      → check_maximum name (some (pos bound)) z ≡ loaded tt
      → IsUpTo bound z
  bounded z bound low high =
      let (n, e, positive) = check_minimum-one name z low in
      (
        n,
        e,
        positive,
        check_maximum-le name bound n (ap (check_maximum name (some (pos bound))) (sym e) ∙ high),
      )

  get_env_int-IsPositive :
      (default_value value : ℤ)
      → get_env_int environ name default_value (some (pos 1)) none ≡ loaded value
      → IsPositive value
  unfolding get_env_int check_maximum
  get_env_int-IsPositive default_value value h =
      let (v, _, h₁) = chain_loaded (read_int environ name default_value) _ h in
      let (_, low, h₂) = chain_loaded (check_minimum name (some (pos 1)) v) _ h₁ in
      let same : v ≡ value = cc in subst IsPositive same (check_minimum-one name v low)

  get_env_int-IsUpTo :
      (default_value value : ℤ) (bound : ℕ)
      → get_env_int environ name default_value (some (pos 1)) (some (pos bound)) ≡ loaded value
      → IsUpTo bound value
  unfolding get_env_int
  get_env_int-IsUpTo default_value value bound h =
      let (v, _, h₁) = chain_loaded (read_int environ name default_value) _ h in
      let (_, low, h₂) = chain_loaded (check_minimum name (some (pos 1)) v) _ h₁ in
      let (_, high, h₃) = chain_loaded (check_maximum name (some (pos bound)) v) _ h₂ in
      let same : v ≡ value = cc in subst (IsUpTo bound) same (bounded v bound low high)

  get_env_choice-among :
      (default_value value : Text) (allowed_values : List Text) (normalize : Text → Text)
      → get_env_choice environ name default_value allowed_values normalize ≡ loaded value
      → among allowed_values value ≡ true
  unfolding get_env_choice
  get_env_choice-among default_value value allowed_values normalize h = ground arith

either_choice : (a b value : Text) → among (a ∷ b ∷ []) value ≡ true → (value ≡ a) ⊎ (value ≡ b)
either_choice a b value h = elim (Text-discrete a value) [
  | yes p ↦ inl (sym p)
  | no p ↦ elim (Text-discrete b value) [
    | yes q ↦ inr (sym q)
    | no q ↦ absurd (ground (arith, p, q, h))
  ]
]

-- Whatever ends loading, it is not pydantic.
abbrev pub IsOurs {ℓ} : {A : Type ℓ} → Loading A → Type 0
IsOurs (loaded a) = Unit
IsOurs (rejected e) = e ≢ field_violated

-- What holds of the value and of the errors of both steps holds of a chain.
chain {ℓ κ} :
    {A : Type ℓ} {B : Type κ} (P : Loading B → Type 0) (first : Loading A) (next : A → Loading B)
    → IsOurs first
    → ((e : SettingsError) → e ≢ field_violated → P (rejected e))
    → ((value : A) → first ≡ loaded value → P (next value))
    → P (first >>= next)
chain P (loaded value) next ours wrong right = right value refl
chain P (rejected e) next ours wrong right = wrong e ours

either-IsOurs :
    (on off : Bool) (e : SettingsError)
    → e ≢ field_violated
    → IsOurs (if on then loaded true else if off then loaded false else rejected e)
either-IsOurs true off e h = tt
either-IsOurs false true e h = tt
either-IsOurs false false e h = h

module _ (environ : Environ) (name : Text) where
  check_minimum-IsOurs : (bound : Option ℤ) (z : ℤ) → IsOurs (check_minimum name bound z)
  unfolding check_minimum
  check_minimum-IsOurs none z = tt
  check_minimum-IsOurs (some m) z = elim (Bool-cases (less z m)) [
    | inl p ↦ rw (p, check_minimum) (λ h. cc)
    | inr p ↦ rw (p, check_minimum) tt
  ]

  check_maximum-IsOurs : (bound : Option ℤ) (z : ℤ) → IsOurs (check_maximum name bound z)
  unfolding check_maximum
  check_maximum-IsOurs none z = tt
  check_maximum-IsOurs (some m) z = elim (Bool-cases (less m z)) [
    | inl p ↦ rw (p, check_maximum) (λ h. cc)
    | inr p ↦ rw (p, check_maximum) tt
  ]

  read_int-IsOurs : (default_value : ℤ) → IsOurs (read_int environ name default_value)
  unfolding read_int
  read_int-IsOurs default_value = elim (Option-cases (environ.getenv name)) [
    | inl p ↦ rw (p, read_int) tt
    | inr (raw, p) ↦ elim (Option-cases (environ.int_of raw)) [
      | inl q ↦ rw (p, read_int) (rw q (λ h. cc))
      | inr (z, q) ↦ rw (p, read_int) (rw q tt)
    ]
  ]

  get_env_int-IsOurs :
      (default_value : ℤ) (min_value max_value : Option ℤ)
      → IsOurs (get_env_int environ name default_value min_value max_value)
  unfolding get_env_int
  get_env_int-IsOurs default_value min_value max_value =
      chain IsOurs (read_int environ name default_value) _ (read_int-IsOurs default_value)
        (λ _ h. h)
        (λ v _.
          chain IsOurs (check_minimum name min_value v) _ (check_minimum-IsOurs min_value v)
            (λ _ h. h)
            (λ _ _.
              chain IsOurs (check_maximum name max_value v) _ (check_maximum-IsOurs max_value v)
                (λ _ h. h) (λ _ _. tt)))

  get_env_choice-IsOurs :
      (default_value : Text) (allowed_values : List Text) (normalize : Text → Text)
      → IsOurs (get_env_choice environ name default_value allowed_values normalize)
  unfolding get_env_choice
  get_env_choice-IsOurs default_value allowed_values normalize =
      let value =
        normalize (elim (environ.getenv name) [
          | none ↦ default_value
          | some raw_value ↦ strip raw_value
        ]) in
      elim (Bool-cases (among allowed_values value)) [
        | inl p ↦ rw (p, get_env_choice) tt
        | inr p ↦ rw (p, get_env_choice) (λ h. cc)
      ]

  get_env_bool-IsOurs : (default_value : Bool) → IsOurs (get_env_bool environ name default_value)
  unfolding get_env_bool
  get_env_bool-IsOurs default_value = elim (Option-cases (environ.getenv name)) [
    | inl p ↦ rw (p, get_env_bool) tt
    | inr (raw, p) ↦ rw (p, get_env_bool) (either-IsOurs _ _ _ (λ h. cc))
  ]

-- how loading may end
abbrev pub IsSettled : Loading Settings → Type 0
IsSettled (loaded s) = IsAdmissible s
IsSettled (rejected e) = e ≢ field_violated

not_less_one : (z : ℤ) → IsPositive z → is_at_least_one z ≡ true
not_less_one z (n, e, h) = rw e (ground arith)

is_port-IsUpTo : (z : ℤ) → IsUpTo 65535 z → is_port z ≡ true
is_port-IsUpTo z (n, e, low, high) = rw e (ground arith)

new_settings-IsSettled : (s : Settings) → IsAdmissible s → IsSettled (new_settings s)
unfolding new_settings
new_settings-IsSettled s a =
    let (m, _, bounded_value) = a.value in
    let (v, e, low, _) = bounded_value in
    let fits : satisfies_fields s ≡ true = ap₂ ◌&&◌ (not_less_one s.max_items a.items) (
      ap₂ ◌&&◌ (not_less_one s.max_memory_mb a.memory) (
        ap₂ ◌&&◌ (not_less_one s.max_value_bytes (v, e, low)) (
          ap₂ ◌&&◌ (not_less_one s.cleanup_interval a.interval) (
            ap₂ ◌&&◌ (is_port-IsUpTo s.port a.port)
              (is_port-IsUpTo s.health_port a.health_port))))) in
    rw (fits, new_settings) a

value_bound :
    (environ : Environ) (name : Text) (mb value : ℤ)
    → IsPositive mb
    → get_env_int environ name (mebibytes mb) (some (pos 1)) (some (mebibytes mb)) ≡ loaded value
    → (m : ℕ) × (mb ≡ pos m) × IsUpTo (m * 1024 * 1024) value
value_bound environ name mb value (m, e, positive) h = (
  m,
  e,
  get_env_int-IsUpTo environ name (pos (m * 1024 * 1024)) value (m * 1024 * 1024) (
      subst
        (λ (z : ℤ).
          get_env_int environ name (mebibytes z) (some (pos 1)) (some (mebibytes z)) ≡ loaded value)
        e h),
)

-- Whatever the variables of the environment are, loading either ends with settings that satisfy
-- every constraint on a field, whose largest value fits in the memory, and whose backend, log level
-- and log format are known; or with an error of its own checks. Pydantic rejects nothing that they
-- let through.
pub load_settings-IsSettled : (environ : Environ) → IsSettled (load_settings environ)
unfolding load_settings
load_settings-IsSettled environ =
    let ints = get_env_int-IsOurs environ in
    let choices = get_env_choice-IsOurs environ in
    let flags = get_env_bool-IsOurs environ in
    chain IsSettled _ _ (ints _ _ _ _) (λ _ h. h)
      (λ mb e_mb.
        chain IsSettled _ _ (ints _ _ _ _) (λ _ h. h)
          (λ items e_items.
            chain IsSettled _ _ (ints _ _ _ _) (λ _ h. h)
              (λ value e_value.
                chain IsSettled _ _ (ints _ _ _ _) (λ _ h. h)
                  (λ interval e_interval.
                    chain IsSettled _ _ (ints _ _ _ _) (λ _ h. h)
                      (λ port e_port.
                        chain IsSettled _ _ (ints _ _ _ _) (λ _ h. h)
                          (λ health_port e_health_port.
                            chain IsSettled _ _ (choices _ _ _ _) (λ _ h. h)
                              (λ log_level e_level.
                                chain IsSettled _ _ (choices _ _ _ _) (λ _ h. h)
                                  (λ log_format e_format.
                                    chain IsSettled _ _ (choices _ _ _ _) (λ _ h. h)
                                      (λ backend e_backend.
                                        chain IsSettled _ _ (flags _ _) (λ _ h. h)
                                          (λ tls_enabled _.
                                            chain IsSettled _ _ (flags _ _) (λ _ h. h)
                                              (λ client_auth _.
                                                let memory =
                                                  get_env_int-IsPositive environ _ _ mb e_mb in
                                                new_settings-IsSettled _ (record {
                                                  items =
                                                      get_env_int-IsPositive environ _ _ items
                                                        e_items;
                                                  memory = memory;
                                                  value =
                                                      value_bound environ _ mb value memory e_value;
                                                  interval =
                                                      get_env_int-IsPositive environ _ _ interval
                                                        e_interval;
                                                  port =
                                                      get_env_int-IsUpTo environ _ _ port 65535
                                                        e_port;
                                                  health_port =
                                                      get_env_int-IsUpTo environ _ _ health_port
                                                        65535 e_health_port;
                                                  log_level =
                                                      get_env_choice-among environ _ _ log_level _ _
                                                        e_level;
                                                  log_format = either_choice _ _ log_format (
                                                      get_env_choice-among environ _ _ log_format _
                                                        _ e_format);
                                                  backend = either_choice _ _ backend (
                                                      get_env_choice-among environ _ _ backend _ _
                                                        e_backend);
                                                }))))))))))))
