-- ===== src/Memberships/Keys.antt =====
-- The keys of the cache of memberships.
use Prim.Native.Char.{Char, code}
use text.Mathlib.TextLemmas.{
  nil-append, cons-append, append_cancel_left, head-eq_of_cons-eq, tail-eq_of_cons-eq,
}
use mathlib.Core.Path.{subst}
use lotus_build_server.Base.{String, ◌<>◌, ◌≡◌, refl, sym, ◌∙◌, ◌≢◌, Bool, true, false, nat_eq}
use lotus_build_server.Memberships.{key}

is_colon : Char → Bool
is_colon c = nat_eq (code c) b':'

unfoldable pub NoColon : String → Type 0
unfolding is_colon
NoColon String.[] = Unit
NoColon (String.◌∷◌ c s) = (is_colon c ≡ false) × NoColon s

true-ne-false : true ≢ false
true-ne-false e = cc

colon_first : (t : String) → ¬ NoColon (":" <> t)
unfolding NoColon is_colon
colon_first t = rw cons-append (λ n. true-ne-false n.0)

colon_inside : (s t : String) → ¬ NoColon (s <> ":" <> t)
unfolding NoColon
colon_inside String.[] t = rw nil-append (colon_first t)
colon_inside (String.◌∷◌ c s) t = rw cons-append (λ n. colon_inside s t n.1)

cons_same : (c c' : Char) (s s' : String) → c ≡ c' → s ≡ s' → String.◌∷◌ c s ≡ String.◌∷◌ c' s'
cons_same c c' s s' e e' = cc

first_colon : (c : Char) (o u u' : String) → NoColon u → ¬ (":" <> u ≡ String.◌∷◌ c o <> ":" <> u')
first_colon c o u u' n =
    rw (cons-append, cons-append, nil-append)
      (λ e. colon_inside o u' (subst NoColon (tail-eq_of_cons-eq e) n))

split_at_last :
    (o o' u u' : String)
    → NoColon u
    → NoColon u'
    → o <> ":" <> u ≡ o' <> ":" <> u'
    → (o ≡ o') × (u ≡ u')
split_at_last String.[] String.[] u u' n n' e =
    (refl, append_cancel_left ":" u u' (append_cancel_left "" _ _ e))
split_at_last String.[] (String.◌∷◌ c o') u u' n n' e =
    absurd (first_colon c o' u u' n (sym (nil-append _) ∙ e))
split_at_last (String.◌∷◌ c o) String.[] u u' n n' e =
    absurd (first_colon c o u' u n' (sym (nil-append _) ∙ sym e))
split_at_last (String.◌∷◌ c o) (String.◌∷◌ c' o') u u' n n' e =
    let cons_eq = sym (cons-append c o (":" <> u)) ∙ e ∙ cons-append c' o' (":" <> u') in
    let (same_o, same_u) = split_at_last o o' u u' n n' (tail-eq_of_cons-eq cons_eq) in
    (cons_same c c' o o' (head-eq_of_cons-eq cons_eq) same_o, same_u)

-- Users without a colon in their ids have different keys, in the same organization and in others.
pub key_injective :
    (user_id user_id' organization_id organization_id' : String)
    → NoColon user_id
    → NoColon user_id'
    → key user_id organization_id ≡ key user_id' organization_id'
    → (organization_id ≡ organization_id') × (user_id ≡ user_id')
key_injective user_id user_id' organization_id organization_id' n n' e =
    split_at_last organization_id organization_id' user_id user_id' n n'
      (append_cancel_left "membership:" _ _ e)
