-- ===== src/Fs/Elements.antt =====
-- `skipelem` takes the elements of a path one by one; `elements` says what they are, independently
-- of it.
use xv6_system_calls.Prelude.{
  ℕ, ◌+◌, ◌≤◌, ◌<◌, ◌≡◌, refl, sym, ap, ◌∙◌, ◌⊎◌, inl, inr, Bool, true, false, none, some, List, [],
  ◌∷◌, ◌==◌, if◌then◌else◌, Bool-cases, arith, length,
}
use xv6_system_calls.Fs.Content.{bytes_from}
use xv6_system_calls.Fs.Copy.{bytes_from-of}
use xv6_system_calls.Fs.Path.{
  slash, skip_slashes, element, after_element, set_name, skip_name, skipelem, is_nil,
}
use xv6_system_calls.Fs.Names.{name_of, set_name-name_of}

abbrev pub prepend : ℕ → List (List ℕ) → List (List ℕ)
prepend c [] = (c ∷ []) ∷ []
prepend c (e ∷ es) = (c ∷ e) ∷ es

-- The parts of a path between its slashes.
unfoldable pub split : List ℕ → List (List ℕ)
split [] = [] ∷ []
split (c ∷ cs) = let rest = split cs in if c == slash then [] ∷ rest else prepend c rest

unfoldable pub nonempty : List (List ℕ) → List (List ℕ)
nonempty [] = []
nonempty ([] ∷ es) = nonempty es
nonempty ((c ∷ cs) ∷ es) = (c ∷ cs) ∷ nonempty es

abbrev pub elements : List ℕ → List (List ℕ)
elements path = nonempty (split path)

abbrev pub none_left : List (List ℕ) → Bool
none_left [] = true
none_left (e ∷ es) = false

elements-skip_slashes : (p : List ℕ) → elements (skip_slashes p) ≡ elements p
unfolding skip_slashes split nonempty
elements-skip_slashes [] = refl
elements-skip_slashes (c ∷ cs) = elim (Bool-cases (c == slash)) [
  | inl e ↦ rw e (elements-skip_slashes cs)
  | inr e ↦ rw (e, e) refl
]

length-skip_slashes : (p : List ℕ) → length (skip_slashes p) ≤ length p
unfolding skip_slashes
length-skip_slashes [] = omega arith
length-skip_slashes (c ∷ cs) = ground (arith, length-skip_slashes cs)

-- What follows an element, without the slash.
abbrev after_slash : List ℕ → List (List ℕ)
after_slash [] = []
after_slash (c ∷ cs) = split cs

split-element : (p : List ℕ) → split p ≡ element p ∷ after_slash (after_element p)
unfolding split element after_element
split-element [] = refl
split-element (c ∷ cs) = elim (Bool-cases (c == slash)) [
  | inl e ↦ rw e refl
  | inr e ↦ rw (e, split-element cs) refl
]

elements-after_element :
    (p : List ℕ) → elements (after_element p) ≡ nonempty (after_slash (after_element p))
unfolding split after_element nonempty
elements-after_element [] = refl
elements-after_element (c ∷ cs) = elim (Bool-cases (c == slash)) [
  | inl e ↦ rw (e, e) refl
  | inr e ↦ rw e (elements-after_element cs)
]

length-after_element : (p : List ℕ) → length (after_element p) ≤ length p
unfolding after_element
length-after_element [] = omega arith
length-after_element (c ∷ cs) = ground (arith, length-after_element cs)

skip_slashes-head :
    (p : List ℕ)
    → (skip_slashes p ≡ [])
      ⊎ ((c : ℕ) × (cs : List ℕ) × (skip_slashes p ≡ c ∷ cs) × ((c == slash) ≡ false))
unfolding skip_slashes
skip_slashes-head [] = inl refl
skip_slashes-head (c ∷ cs) = elim (Bool-cases (c == slash)) [
  | inl e ↦ rw e (skip_slashes-head cs)
  | inr e ↦ inr (c, cs, rw e refl, e)
]

-- At an element the path splits into the element and the elements after it.
elements-head :
    (c : ℕ) (cs : List ℕ)
    → (c == slash) ≡ false
    → elements (c ∷ cs) ≡ element (c ∷ cs) ∷ elements (after_element (c ∷ cs))
unfolding element nonempty
elements-head c cs e =
    let parts = split-element (c ∷ cs) in
    let after = elements-after_element (c ∷ cs) in rw (parts, after, e) refl

is_nil-elements : (p : List ℕ) → is_nil (skip_slashes p) ≡ none_left (elements p)
unfolding split nonempty
is_nil-elements p = elim (skip_slashes-head p) [
  | inl e ↦ rw (← elements-skip_slashes p, e) refl
  | inr (c, cs, e, ne) ↦ rw (← elements-skip_slashes p, e, elements-head c cs ne) refl
]

elements-nil : elements [] ≡ []
unfolding split nonempty
elements-nil = refl

after_element-shorter :
    (c : ℕ) (cs : List ℕ) → (c == slash) ≡ false → length (after_element (c ∷ cs)) ≤ length cs
unfolding after_element
after_element-shorter c cs ne = rw ne (length-after_element cs)

-- `skipelem` takes the first element `e` off the path: `name` gets it, cut off at DIRSIZ bytes
-- and ended by a NUL where there is room, the rest has the elements that are left, it is empty
-- if there are none, and it is shorter than the path.
pub record TakesElement (path : List ℕ) (e rest : List ℕ) (name : ℕ → ℕ) : Type 0 where
  pub parts : elements path ≡ e ∷ elements rest
  pub bytes : bytes_from name 0 (length (name_of e)) ≡ name_of e
  pub last : is_nil rest ≡ none_left (elements rest)
  pub shorter : length rest < length path

-- The rest of the path and the element itself, of which `skipelem` takes the name.
pub skipelem-element :
    (path : List ℕ) (name : ℕ → ℕ)
    → ((skipelem path name ≡ none) × (elements path ≡ []))
      ⊎ ((e : List ℕ) × (rest : List ℕ) × (skipelem path name ≡ some (rest, set_name e name))
          × TakesElement path e rest (set_name e name))
unfolding skipelem skip_name
skipelem-element path name = elim (skip_slashes-head path) [
  | inl e ↦ inl (rw e refl, sym (elements-skip_slashes path) ∙ ap elements e ∙ elements-nil)
  | inr (c, cs, e, ne) ↦
      let after : List ℕ = after_element (c ∷ cs) in
      inr (
        element (c ∷ cs),
        skip_slashes after,
        rw e refl,
        record {
          parts =
              sym (elements-skip_slashes path)
              ∙ ap elements e
              ∙ elements-head c cs ne
              ∙ ap (λ (t : List (List ℕ)). element (c ∷ cs) ∷ t)
                  (sym (elements-skip_slashes after));
          bytes =
              bytes_from-of (set_name (element (c ∷ cs)) name) 0 (name_of (element (c ∷ cs)))
                (λ k lt.
                  let place : 0 + k ≡ k = omega arith in
                  rw place (set_name-name_of (element (c ∷ cs)) name k lt));
          last = is_nil-elements after ∙ ap none_left (sym (elements-skip_slashes after));
          shorter =
              let whole : length (c ∷ cs) ≤ length path = rw e at (length-skip_slashes path) in
              omega (arith, length-skip_slashes after, after_element-shorter c cs ne, whole);
        },
      )
]

-- `skipelem` returns nothing just where the path has no element between its slashes. Otherwise
-- `name` gets the first element, cut off at DIRSIZ bytes and ended by a NUL where there is room,
-- the rest of the path has the elements that are left, it is empty if there are none, and it is
-- shorter than the path.
pub skipelem-TakesElement :
    (path : List ℕ) (name : ℕ → ℕ)
    → ((skipelem path name ≡ none) × (elements path ≡ []))
      ⊎ ((e : List ℕ) × (rest : List ℕ) × (name' : ℕ → ℕ) × (skipelem path name
            ≡ some (rest, name'))
          × TakesElement path e rest name')
skipelem-TakesElement path name = elim (skipelem-element path name) [
  | inl gone ↦ inl gone
  | inr (e, rest, taken, takes) ↦ inr (e, rest, set_name e name, taken, takes)
]
