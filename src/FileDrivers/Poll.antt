-- ===== src/FileDrivers/Poll.antt =====
-- Sysfs/sysfs-poll.c: two attributes with a value each, and the notice that a store sends to those that
-- wait for the attribute.
use linux_kernel_development.Prelude.{
  true, Option-cases, inl, inr, ltb, ◌^◌, append_assoc, append-nil, sym, ◌∙◌, ℕ, ◌≡◌, ◌≢◌, Bool,
  not, if◌then◌else◌, Option, none, some, List, [], ◌∷◌, ◌++◌, ℤ, pos, negsuc, eq_ℤ, refl,
}
use mathlib.Core.List.{map}
use linux_kernel_development.Kernel.Ledger.{Events, taken, given, memory, kobject}
use linux_kernel_development.Kernel.CharSetup.{Loaded}

-- The attributes.
pub data Attribute : Type 0 where
  notify trigger : Attribute

-- The names "notify" and "trigger".
abbrev pub name : Attribute → List ℕ
name notify = 110 ∷ 111 ∷ 116 ∷ 105 ∷ 102 ∷ 121 ∷ []
name trigger = 116 ∷ 114 ∷ 105 ∷ 103 ∷ 103 ∷ 101 ∷ 114 ∷ []

-- The values of the attributes, and the notices that have been sent.
pub record Attributes : Type 0 where
  pub notify_value : ℤ
  pub trigger_value : ℤ
  pub notices : List Attribute

abbrev pub value_of : Attributes → Attribute → ℤ
value_of s notify = s.notify_value
value_of s trigger = s.trigger_value

abbrev pub with_value : Attributes → Attribute → ℤ → Attributes
with_value s notify v = record s { notify_value = v }
with_value s trigger v = record s { trigger_value = v }

-- The integers that an `int` holds.
abbrev pub is_int : ℤ → Bool
is_int (pos n) = ltb n (2 ^ 31)
is_int (negsuc n) = ltb n (2 ^ 31)

-- The kernel's conversions of an `int`: `render` is `%d` printed, `scan` what `%d` puts into an `int`,
-- `none` if there is no number at the start.
pub record Conversions : Type 0 where
  pub render : ℤ → List ℕ
  pub scan : List ℕ → Option ℤ
  pub scan-int : (bytes : List ℕ) (v : ℤ) → scan bytes ≡ some v → is_int v ≡ true

module _ (conversions : Conversions) where
  open conversions use {render, scan}

  -- What a read of the file gets: the name, a colon and a space, the value, and a newline.
  unfoldable pub show : Attributes → Attribute → List ℕ
  show s a = name a ++ (58 ∷ 32 ∷ (render (value_of s a) ++ (10 ∷ [])))

  -- A text without a number leaves the value as it is. The value returned is `sizeof(int)`.
  unfoldable pub store : Attributes → Attribute → List ℕ → Attributes × ℤ
  store s a buf =
      let v : ℤ = elim (scan buf) [ none ↦ value_of s a | some n ↦ n ] in
      (record (with_value s a v) { notices = s.notices ++ (a ∷ []) }, pos 4)

  -- What is written to the attributes, one text after the other.
  unfoldable pub store_all : Attributes → List (Attribute × List ℕ) → Attributes
  store_all s [] = s
  store_all s ((a, buf) ∷ ws) = store_all (store s a buf).0 ws

  -- No text is written to the attribute.
  abbrev pub Elsewhere : Attribute → List (Attribute × List ℕ) → Type 0
  Elsewhere a [] = Unit {0}
  Elsewhere a (w ∷ ws) = (w.0 ≢ a) × Elsewhere a ws

  value_of-store :
      (s : Attributes) (a b : Attribute) (buf : List ℕ)
      → b ≢ a
      → value_of (store s b buf).0 a ≡ value_of s a
  unfolding store
  value_of-store s notify notify buf other = absurd (other refl)
  value_of-store s notify trigger buf other = refl
  value_of-store s trigger notify buf other = refl
  value_of-store s trigger trigger buf other = absurd (other refl)

  value_of-store_all :
      (s : Attributes) (a : Attribute) (ws : List (Attribute × List ℕ))
      → Elsewhere a ws
      → value_of (store_all s ws) a ≡ value_of s a
  unfolding store_all
  value_of-store_all s a [] other = refl
  value_of-store_all s a ((b, buf) ∷ ws) other =
      value_of-store_all (store s b buf).0 a ws other.1 ∙ value_of-store s a b buf other.0

  stored :
      (s : Attributes) (a : Attribute) (v : ℤ)
      → scan (render v ++ (10 ∷ [])) ≡ some v
      → value_of (store s a (render v ++ (10 ∷ []))).0 a ≡ v
  unfolding store
  stored s notify v back = rw back refl
  stored s trigger v back = rw back refl

  -- Both values are ints.
  abbrev pub Ints : Attributes → Type 0
  Ints s = (is_int s.notify_value ≡ true) × (is_int s.trigger_value ≡ true)

  abbrev scanned_or : Option ℤ → ℤ → ℤ
  scanned_or o v = elim o [ none ↦ v | some n ↦ n ]

  scanned-int :
      (bytes : List ℕ) (v : ℤ) → is_int v ≡ true → is_int (scanned_or (scan bytes) v) ≡ true
  scanned-int bytes v int = elim (Option-cases (scan bytes)) [
    | inl none_there ↦ rw none_there int
    | inr (n, there) ↦ rw there (conversions.scan-int bytes n there)
  ]

  store-Ints : (s : Attributes) (a : Attribute) (buf : List ℕ) → Ints s → Ints (store s a buf).0
  unfolding store
  store-Ints s notify buf ints = (scanned-int buf s.notify_value ints.0, ints.1)
  store-Ints s trigger buf ints = (ints.0, scanned-int buf s.trigger_value ints.1)

  store_all-Ints :
      (s : Attributes) (ws : List (Attribute × List ℕ)) → Ints s → Ints (store_all s ws)
  unfolding store_all
  store_all-Ints s [] ints = ints
  store_all-Ints s ((a, buf) ∷ ws) ints =
      store_all-Ints (store s a buf).0 ws (store-Ints s a buf ints)

  notices-store_all :
      (s : Attributes) (ws : List (Attribute × List ℕ))
      → (store_all s ws).notices ≡ s.notices ++ map (λ w. w.0) ws
  unfolding store_all store
  notices-store_all s [] = sym (append-nil s.notices)
  notices-store_all s ((notify, buf) ∷ ws) =
      notices-store_all (store s notify buf).0 ws
      ∙ append_assoc s.notices (notify ∷ []) (map (λ w. w.0) ws)
  notices-store_all s ((trigger, buf) ∷ ws) =
      notices-store_all (store s trigger buf).0 ws
      ∙ append_assoc s.notices (trigger ∷ []) (map (λ w. w.0) ws)

  -- If `%d` reads a number back as it prints it, then the number, once it is stored into an attribute,
  -- is shown by it, with its name, whatever is stored into the other attribute afterwards; each store
  -- sends one notice, for its attribute, in order; and the values, if they are ints, stay ints.
  pub store-show :
      (s : Attributes) (a : Attribute) (v : ℤ) (later : List (Attribute × List ℕ))
      → scan (render v ++ (10 ∷ [])) ≡ some v
      → Ints s
      → Elsewhere a later
      → let w : Attribute × List ℕ = (a, render v ++ (10 ∷ [])) in
        (show (store_all s (w ∷ later)) a ≡ name a ++ (58 ∷ 32 ∷ (render v ++ (10 ∷ []))))
        × ((store_all s (w ∷ later)).notices ≡ s.notices ++ (a ∷ map (λ u. u.0) later))
        × Ints (store_all s (w ∷ later))
  unfolding show store_all
  store-show s a v later back ints other = (
    rw (value_of-store_all (store s a (render v ++ (10 ∷ []))).0 a later other, stored s a v back)
        refl,
    notices-store_all s ((a, render v ++ (10 ∷ [])) ∷ later),
    store_all-Ints s ((a, render v ++ (10 ∷ [])) ∷ later) ints,
  )

-- `kzalloc`, and what `kobject_add` answers. A name that cannot be added is answered with 0.
unfoldable pub hello_module_init : Bool → ℤ → Loaded
hello_module_init memory_ok add =
    if not memory_ok
    then record { log = []; rv = negsuc 0 }
    else (if not (eq_ℤ add (pos 0))
        then record { log = taken memory ∷ taken kobject ∷ given kobject ∷ []; rv = pos 0 }
        else record { log = taken memory ∷ taken kobject ∷ []; rv = pos 0 })

-- Whether `mykobj` is not NULL, as it is after a load whose name could be added.
unfoldable pub hello_module_exit : Bool → Events
hello_module_exit is_there = if is_there then given kobject ∷ given memory ∷ [] else []
