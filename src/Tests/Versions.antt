-- ===== src/Tests/Versions.antt =====
-- Updates of a small index in two orders.
use mathlib.Core.List.Memᴰ.{not-nil, cases_cons}
use gocrud.Prelude.{◌≡◌, sym, ap, ◌∙◌, ◌⊎◌, inl, inr, Memᴰ, List, [], ◌∷◌, pos}
use gocrud.Prelude.Dict
use gocrud.Search.{Doc, init}
use gocrud.Search.Convergence.{update_all, IsVersioned, update_all_converges}
use gocrud.Tests.Search.{small, doc}

abbrev one_then_two : List (Doc small)
one_then_two = doc "Post" "1" 1 "a" ∷ doc "Post" "1" 2 "b" ∷ []

abbrev two_then_one : List (Doc small)
two_then_one = doc "Post" "1" 2 "b" ∷ doc "Post" "1" 1 "a" ∷ []

one_of_two :
    (d : Doc small) → Memᴰ d one_then_two → (d ≡ doc "Post" "1" 1 "a") ⊎ (d ≡ doc "Post" "1" 2 "b")
one_of_two d m = elim (cases_cons m) [
  | inl e ↦ inl e
  | inr t ↦ elim (cases_cons t) [ inl e ↦ inr e | inr n ↦ absurd (not-nil n) ]
]

one_not_two : pos 1 ≡ pos 2 → ⊥
one_not_two h = cc

times_differ :
    (d e : Doc small)
    → d ≡ doc "Post" "1" 1 "a"
    → e ≡ doc "Post" "1" 2 "b"
    → d.nano_ts ≡ e.nano_ts
    → ⊥
times_differ d e f g h = one_not_two (sym (ap (λ x. x.nano_ts) f) ∙ h ∙ ap (λ x. x.nano_ts) g)

one_then_two-IsVersioned : IsVersioned small one_then_two
one_then_two-IsVersioned d e md me same_key same_time = elim (one_of_two d md) [
  | inl f ↦ elim (one_of_two e me) [
    | inl g ↦ f ∙ sym g
    | inr g ↦ absurd (times_differ d e f g same_time)
  ]
  | inr f ↦ elim (one_of_two e me) [
    | inl g ↦ absurd (times_differ e d g f (sym same_time))
    | inr g ↦ f ∙ sym g
  ]
]

turned : (d : Doc small) → Memᴰ d one_then_two → Memᴰ d two_then_one
turned d m = elim (one_of_two d m) [ inl e ↦ Memᴰ.tail (Memᴰ.head e) | inr e ↦ Memᴰ.head e ]

turned_back : (d : Doc small) → Memᴰ d two_then_one → Memᴰ d one_then_two
turned_back d m = elim (cases_cons m) [
  | inl e ↦ Memᴰ.tail (Memᴰ.head e)
  | inr t ↦ elim (cases_cons t) [ inl e ↦ Memᴰ.head e | inr n ↦ absurd (not-nil n) ]
]

update_all_converges_example :
    Dict.lookup "Post:1" (update_all small one_then_two (init small))
    ≡ Dict.lookup "Post:1" (update_all small two_then_one (init small))
update_all_converges_example =
    update_all_converges small one_then_two two_then_one one_then_two-IsVersioned turned turned_back
      "Post:1"
