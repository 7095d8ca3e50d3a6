-- ===== src/Extensions/Versions.antt =====
-- The version that src/extensions.rs declares for an extension.
use nerves_hub_link_esp.Base.{
  String, Bool, true, false, ◌≡◌, refl, sym, subst, ap, str_eq, Option, none, some, List, [], ◌∷◌,
  ◌++◌, any, inl, inr, Bool-cases, unwrap_or, if_intro,
}
use nerves_hub_link_esp.Extensions.{
  Extensions, implemented, find, last, theirs, newest_common, version_among, version, logging,
  logging_batched_version, extension_version,
}
use nerves_hub_link_esp.Json.{Json, Map, lookup}

module _ {Val : Type 0} (js : Json Val) where
  -- Whether the invitation lists a version of an extension, in an array.
  unfoldable pub is_listed : Map Val → String → String → Bool
  unfolding theirs
  is_listed advertised key version =
      any (λ v. js.equals_str v version) (unwrap_or (theirs js (lookup advertised key)) [])

  -- Of our versions, the newest first: the oldest when nothing was named, and otherwise the newest
  -- that is listed, or none when none is.
  pub data Chosen (key : String) (ours : List String)
      : Option (Map Val) → Option String → Type 0 where
    oldest :
        {v : String} (newer : List String) → ours ≡ newer ++ v ∷ [] → Chosen key ours none (some v)
    newest :
        {m : Map Val} {v : String} (newer older : List String)
        → ours ≡ newer ++ v ∷ older
        → any (is_listed m key) newer ≡ false
        → is_listed m key v ≡ true
        → Chosen key ours (some m) (some v)
    unsupported : {m : Map Val} → any (is_listed m key) ours ≡ false → Chosen key ours (some m) none

data Found (p : String → Bool) (xs : List String) : Option String → Type 0 where
  found :
      {x : String} (front back : List String)
      → xs ≡ front ++ x ∷ back
      → any p front ≡ false
      → p x ≡ true
      → Found p xs (some x)
  missing : any p xs ≡ false → Found p xs none

Found-cons :
    (p : String → Bool) (x : String) (xs : List String) {r : Option String}
    → p x ≡ false
    → Found p xs r
    → Found p (x ∷ xs) r
Found-cons p x xs e (found front back at absent k) =
    found (x ∷ front) back (ap (λ ys. x ∷ ys) at) (rw e absent) k
Found-cons p x xs e (missing absent) = missing (rw e absent)

find-Found : (p : String → Bool) (xs : List String) → Found p xs (find p xs)
unfolding find
find-Found p [] = missing refl
find-Found p (x ∷ xs) = elim (Bool-cases (p x)) [
  | inl e ↦ rw e (found [] xs refl refl e)
  | inr e ↦ rw e (Found-cons p x xs e (find-Found p xs))
]

find-none : (ours : List String) → none ≡ find (λ _. false) ours
unfolding find
find-none [] = refl
find-none (x ∷ xs) = find-none xs

module _ {Val : Type 0} (js : Json Val) where
  Found-Chosen :
      {key : String} {ours : List String} {m : Map Val} {r : Option String}
      → Found (is_listed js m key) ours r
      → Chosen js key ours (some m) r
  Found-Chosen (found front back at absent k) = newest front back at absent k
  Found-Chosen (missing absent) = unsupported absent

  listed_in :
      (ours : List String) (vs : Option (List Val))
      → newest_common js ours vs
        ≡ find (λ version. any (λ v. js.equals_str v version) (unwrap_or vs [])) ours
  unfolding newest_common
  listed_in ours (some vs) = refl
  listed_in ours none = find-none ours

  -- An entry that is missing or no array lists nothing.
  listing :
      (m : Map Val) (key : String) (ours : List String)
      → newest_common js ours (theirs js (lookup m key)) ≡ find (is_listed js m key) ours
  unfolding is_listed
  listing m key ours = listed_in ours (theirs js (lookup m key))

  last-Chosen : (key : String) → Chosen js key (implemented key) none (last (implemented key))
  unfolding implemented last
  last-Chosen key =
      if_intro (λ ours. Chosen js key ours none (last ours)) (str_eq key logging)
        (logging_batched_version ∷ extension_version ∷ []) (extension_version ∷ [])
        (λ _. oldest (logging_batched_version ∷ []) refl) (λ _. oldest [] refl)

  version_among-Chosen :
      (advertised : Option (Map Val)) (key : String)
      → Chosen js key (implemented key) advertised (version_among js advertised key)
  unfolding version_among
  version_among-Chosen (some m) key =
      subst (Chosen js key (implemented key) (some m)) (sym (listing m key _))
        (Found-Chosen (find-Found (is_listed js m key) (implemented key)))
  version_among-Chosen none key = last-Chosen key

  -- The version declared for an extension: when the invitation names no extensions, or has not come,
  -- the oldest that the device implements. Otherwise the newest it implements that is in the array
  -- the invitation has for the extension; and no version exactly if the array has none of them.
  pub version-Chosen :
      (e : Extensions Val) (key : String)
      → Chosen js key (implemented key) e.advertised (version js e key)
  unfolding version
  version-Chosen e key = version_among-Chosen e.advertised key
