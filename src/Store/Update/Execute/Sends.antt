-- ===== src/Store/Update/Execute/Sends.antt =====
-- The sends of `Execute` to the channel of updates.
use gocrud.Prelude.{
  ℕ, zero, suc, ◌+◌, ◌≤◌, ltb, ◌≡◌, refl, sym, ap, ◌∙◌, ◌⊎◌, inl, inr, subst, Bool, Bool-cases,
  Option, none, some, true, false, length-append, if◌then◌else◌, List, [], ◌∷◌, ◌++◌, append-nil,
  append_assoc, length, arith,
}
use gocrud.Prelude.Dict.{Dict}
use gocrud.Outcome.{Outcome, ok, err, halt, pending}
use gocrud.Exec.{resume}
use gocrud.X.{Entity, Instruction}
use gocrud.X.UniqueString.{Rand}
use gocrud.Store.{Store}
use gocrud.Store.Update.{Json}
use gocrud.Store.Update.Execute.{Session, subject, contains, distinct_from, send_to, send_all}

module _ (J : Json) (R : Rand) (S : Store) (range : Dict J.Value → Dict J.Value) where
  -- A send waits: the channel is nil, or has no room for more than what has gone in.
  abbrev pub Waits : Option (ℕ × List Entity) → Session J R S → Type 0
  Waits channel t =
      (channel ≡ none)
      ⊎ ((capacity : ℕ) × (before : List Entity) × (channel ≡ some (capacity, before))
          × (capacity + t.taken ≤ length t.sent))

  -- The sends of a list of entities, as they end, behind what had gone into the channel before: the first
  -- of them have gone in, and all of them exactly if the sends succeed.
  pub record Sent (channel : Option (ℕ × List Entity)) (es before : List Entity)
      (o : Outcome (Unit {0})) (t : Session J R S) : Type 0 where
    pub through : List Entity
    pub left : List Entity
    pub split : es ≡ through ++ left
    pub sent : t.sent ≡ before ++ through
    pub all : o ≡ ok tt → left ≡ []
    pub not_all : left ≡ [] → o ≡ ok tt
    pub waits : o ≡ pending → Waits channel t

  Sent-later :
      (channel : Option (ℕ × List Entity)) (e : Entity) (es before : List Entity)
      (o : Outcome (Unit {0})) (t : Session J R S)
      → Sent channel es (before ++ e ∷ []) o t
      → Sent channel (e ∷ es) before o t
  Sent-later channel e es before o t h = record {
    through = e ∷ h.through;
    left = h.left;
    split = ap (λ l. e ∷ l) h.split;
    sent = h.sent ∙ append_assoc before (e ∷ []) h.through;
    all = h.all;
    not_all = h.not_all;
    waits = h.waits;
  }

  none_sent :
      (channel : Option (ℕ × List Entity)) (e : Entity) (es : List Entity) (o : Outcome (Unit {0}))
      (s : Session J R S)
      → (o ≡ ok tt → ⊥)
      → (o ≡ pending → Waits channel s)
      → Sent channel (e ∷ es) s.sent o s
  none_sent channel e es o s failed waits = record {
    through = [];
    left = e ∷ es;
    split = refl;
    sent = sym (append-nil s.sent);
    all = λ h. absurd (failed h);
    not_all = λ h. cc;
    waits = waits;
  }

  abbrev gone : Entity → Session J R S → Session J R S
  gone e s = record s { sent = s.sent ++ e ∷ [] }

  -- A send goes through where there is room, and else leaves all as it was.
  send_to-cases :
      (channel : Option (ℕ × List Entity)) (e : Entity) (s : Session J R S)
      → (send_to J R S range channel e s ≡ (ok tt, gone e s))
        ⊎ ((o : Outcome (Unit {0})) × (send_to J R S range channel e s ≡ (o, s))
            × (o ≡ ok tt → ⊥)
            × (o ≡ pending → Waits channel s))
  unfolding send_to
  send_to-cases none e s = inr (pending, refl, λ h. cc, λ h. inl refl)
  send_to-cases (some (capacity, before)) e s =
      let fits = ltb (length s.sent) (capacity + s.taken) in
      let answer : Bool → Outcome (Unit {0}) × Session J R S =
        λ b. if b then (ok tt, gone e s) else (pending, s) in
      let first : Bool → Outcome (Unit {0}) × Session J R S =
        λ b. if b then (halt "send on closed channel", s) else answer fits in
      elim (Bool-cases s.is_closed) [
        | inl closed ↦ inr (halt "send on closed channel", ap first closed, λ h. cc, λ h. cc)
        | inr open_ ↦ elim (Bool-cases fits) [
          | inl room ↦ inl (ap first open_ ∙ ap answer room)
          | inr full ↦ inr (
            pending,
            ap first open_ ∙ ap answer full,
            λ h. cc,
            λ h. inr (capacity, before, refl, ground arith),
          )
        ]
      ]

  pub send_all-Sent :
      (channel : Option (ℕ × List Entity)) (es : List Entity) (s : Session J R S)
      → let r = send_all J R S range channel es s in Sent channel es s.sent r.0 r.1
  unfolding send_all
  send_all-Sent channel [] s = record {
    through = [];
    left = [];
    split = refl;
    sent = sym (append-nil s.sent);
    all = λ h. refl;
    not_all = λ h. refl;
    waits = λ h. cc;
  }
  send_all-Sent channel (e ∷ es) s = elim (send_to-cases channel e s) [
    | inl through ↦
        subst (λ p. Sent channel (e ∷ es) s.sent (rest p).0 (rest p).1) (sym through)
          (Sent-later channel e es s.sent _ _ (send_all-Sent channel es (gone e s)))
    | inr (o, stays, failed, waits) ↦
        subst (λ p. Sent channel (e ∷ es) s.sent (rest p).0 (rest p).1) (sym stays)
          (stopped o failed waits)
  ]
    where
      rest : Outcome (Unit {0}) × Session J R S → Outcome (Unit {0}) × Session J R S
      rest p = resume p.0 (λ _. send_all J R S range channel es) p.1

      stopped :
          (o : Outcome (Unit {0}))
          → (o ≡ ok tt → ⊥)
          → (o ≡ pending → Waits channel s)
          → Sent channel (e ∷ es) s.sent (rest (o, s)).0 (rest (o, s)).1
      stopped (ok tt) failed waits = absurd (failed refl)
      stopped (err x) failed waits = none_sent channel e es (err x) s failed waits
      stopped (halt x) failed waits = none_sent channel e es (halt x) s failed waits
      stopped pending failed waits = none_sent channel e es pending s failed waits

  pub send_all-db :
      (channel : Option (ℕ × List Entity)) (es : List Entity) (s : Session J R S)
      → (send_all J R S range channel es s).1.db ≡ s.db
  unfolding send_all
  send_all-db channel [] s = refl
  send_all-db channel (e ∷ es) s = elim (send_to-cases channel e s) [
    | inl through ↦
        subst (λ p. (rest p).1.db ≡ s.db) (sym through) (send_all-db channel es (gone e s))
    | inr (o, stays, failed, waits) ↦
        subst (λ p. (rest p).1.db ≡ s.db) (sym stays) (stopped o failed)
  ]
    where
      rest : Outcome (Unit {0}) × Session J R S → Outcome (Unit {0}) × Session J R S
      rest p = resume p.0 (λ _. send_all J R S range channel es) p.1

      stopped : (o : Outcome (Unit {0})) → (o ≡ ok tt → ⊥) → (rest (o, s)).1.db ≡ s.db
      stopped (ok tt) failed = absurd (failed refl)
      stopped (err x) failed = refl
      stopped (halt x) failed = refl
      stopped pending failed = refl

  -- An open channel has room for so many entities.
  abbrev pub HasRoom : Option (ℕ × List Entity) → ℕ → Session J R S → Type 0
  HasRoom channel k s =
      (s.is_closed ≡ false)
      × ((capacity : ℕ) × (before : List Entity) × (channel ≡ some (capacity, before))
          × (length s.sent + k ≤ capacity + s.taken))

  send_to-HasRoom :
      (channel : Option (ℕ × List Entity)) (e : Entity) (k : ℕ) (s : Session J R S)
      → HasRoom channel (suc k) s
      → send_to J R S range channel e s ≡ (ok tt, gone e s)
  unfolding send_to
  send_to-HasRoom none e k s (open_, (capacity, before, at, room)) = cc
  send_to-HasRoom (some (c, b)) e k s (open_, (capacity, before, at, room)) =
      let same : c ≡ capacity = cc in
      let fits : ltb (length s.sent) (c + s.taken) ≡ true = ground arith in
      ap
        (λ x.
          if x
          then (halt "send on closed channel", s)
          else (if ltb (length s.sent) (c + s.taken) then (ok tt, gone e s) else (pending, s)))
        open_
      ∙ ap (λ x. if x then (ok tt, gone e s) else (pending, s)) fits

  pub send_all-HasRoom :
      (channel : Option (ℕ × List Entity)) (es : List Entity) (k : ℕ) (s : Session J R S)
      → length es ≤ k
      → HasRoom channel k s
      → (send_all J R S range channel es s).0 ≡ ok tt
  unfolding send_all
  send_all-HasRoom channel [] k s few room = refl
  send_all-HasRoom channel (e ∷ es) zero s few room = absurd (omega arith)
  send_all-HasRoom channel (e ∷ es) (suc k) s few (open_, (capacity, before, at, room)) =
      ap (λ p. (resume p.0 (λ _. send_all J R S range channel es) p.1).0)
        (send_to-HasRoom channel e k s (open_, (capacity, before, at, room)))
      ∙ send_all-HasRoom channel es k (gone e s) (omega arith)
          (open_, (capacity, before, at, omega (arith, length-append s.sent (e ∷ []))))

pub distinct_from-few :
    (seen : List Entity) (its : List Instruction) → length (distinct_from seen its) ≤ length its
unfolding distinct_from
distinct_from-few seen [] = omega arith
distinct_from-few seen (it ∷ its) = elim (Bool-cases (contains (subject it) seen)) [
  | inl old ↦ rw old (omega (arith, distinct_from-few seen its))
  | inr new ↦ rw new (omega (arith, distinct_from-few (subject it ∷ seen) its))
]
