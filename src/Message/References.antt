-- ===== src/Message/References.antt =====
-- The references of src/message.rs do not repeat.
use Prim.Native.Nat.{zero, suc}
use nerves_hub_link_esp.Base.{
  refl, ℕ, ◌+◌, ◌%◌, ◌^◌, ◌<◌, ◌≡◌, to_string_injective, arith, String, true, Option, none, some,
  ap, eq_iff,
}
use nerves_hub_link_esp.Message.{RefGenerator, next_ref, same_ref}

-- After some calls.
unfoldable pub after : RefGenerator → ℕ → RefGenerator
unfolding next_ref
after g zero = g
after g (suc n) = (next_ref (after g n)).0

next-after : (g : RefGenerator) (n : ℕ) → g.next < 2 ^ 64 → (after g n).next ≡ (g.next + n) % 2 ^ 64
unfolding after
next-after g zero h = omega arith
next-after g (suc n) h = omega (arith, next-after g n h)

-- The references that a generator gives out are all different, for as many calls as a u64 counts:
-- two calls with the same reference are the same call.
next_ref-distinct :
    (g : RefGenerator) (m n : ℕ)
    → g.next < 2 ^ 64
    → m < 2 ^ 64
    → n < 2 ^ 64
    → (next_ref (after g m)).1 ≡ (next_ref (after g n)).1
    → m ≡ n
unfolding next_ref
next_ref-distinct g m n h k l e =
    let same = to_string_injective _ _ e in omega (arith, same, next-after g m h, next-after g n h)

pub same_ref-same : (a b : Option String) → same_ref a b ≡ true → a ≡ b
same_ref-same none none h = refl
same_ref-same (some a) (some b) h = ap some ((eq_iff a b).0 h)
same_ref-same none (some b) h = ground arith
same_ref-same (some a) none h = ground arith
