-- ===== src/Search/Versioning.antt =====
-- Updates of the index: versions of a document, and the keys of documents.
use Prim.Native.String.{◌++◌}
use text.Mathlib.TextLemmas.{append_assoc}
use gocrud.Prelude.{
  String, ◌≡◌, refl, ◌∙◌, ap, ◌⊎◌, inl, inr, true, false, Bool-cases, Option-cases, some, ◌==◌, ℤ,
  ◌≤ℤ◌, leb_ℤ, ltb_ℤ, le_of_leb_ℤ, arith, if◌then◌else◌,
}
use gocrud.Prelude.Dict
use gocrud.Prelude.Dict.{lookup-insert}
use gocrud.Outcome.{Outcome, ok, err}
use gocrud.Search.{Go, Doc, MemSearch, key, update}

module _ (G : Go) where
  -- The document is stored, and each other key keeps its document.
  pub record IsStored (doc : Doc G) (docs docs' : MemSearch G) (o : Outcome (Unit {0}))
      : Type 0 where
    pub answer : o ≡ ok tt
    pub newer :
        (old : Doc G)
        → Dict.lookup (key G doc) docs ≡ some old
        → ltb_ℤ old.nano_ts doc.nano_ts ≡ true
    pub at :
        (k : String)
        → Dict.lookup k docs' ≡ (if key G doc == k then some doc else Dict.lookup k docs)

  -- A document that is as new holds the key, and nothing changes.
  pub record IsConflict (doc : Doc G) (docs docs' : MemSearch G) (o : Outcome (Unit {0}))
      : Type 0 where
    pub answer : o ≡ err "version conflict"
    pub holder : Doc G
    pub held : Dict.lookup (key G doc) docs ≡ some holder
    pub as_new : doc.nano_ts ≤ℤ holder.nano_ts
    pub same : docs' ≡ docs

  not_le-lt : (a b : ℤ) → leb_ℤ a b ≡ false → ltb_ℤ b a ≡ true
  not_le-lt a b h = ground arith

  -- An update of the index stores the document under its key, if what the key held is older, and else
  -- reports a conflict and changes nothing.
  pub update_versions :
      (doc : Doc G) (docs : MemSearch G)
      → IsStored doc docs (update G doc docs).1 (update G doc docs).0
        ⊎ IsConflict doc docs (update G doc docs).1 (update G doc docs).0
  unfolding update
  update_versions doc docs = elim (Option-cases (Dict.lookup (key G doc) docs)) [
    | inl free ↦
        rw (free, update)
          (inl (record {
            answer = refl;
            newer = λ old e. cc;
            at = λ k. lookup-insert (key G doc) k doc docs;
          }))
    | inr (old, e) ↦
        rw (e, update)
          (elim (Bool-cases (leb_ℤ doc.nano_ts old.nano_ts)) [
            | inl le ↦ rw le (
                inr (record {
                  answer = refl;
                  holder = old;
                  held = e;
                  as_new = le_of_leb_ℤ doc.nano_ts old.nano_ts le;
                  same = refl;
                }))
            | inr gt ↦ rw gt (
                inl (record {
                  answer = refl;
                  newer = λ o f.
                      let g : old ≡ o = cc in rw (← g) (not_le-lt doc.nano_ts old.nano_ts gt);
                  at = λ k. lookup-insert (key G doc) k doc docs;
                }))
          ])
  ]

  -- Documents of different kinds share a key where a colon stands in a kind or an id: kind `a:b` with id
  -- `c` and kind `a` with id `b:c`, whatever the three texts.
  pub keys_collide :
      (d e : Doc G) (a b c : String)
      → d.kind ≡ a ++ (":" ++ b)
      → d.id ≡ c
      → e.kind ≡ a
      → e.id ≡ b ++ (":" ++ c)
      → key G d ≡ key G e
  unfolding key
  keys_collide d e a b c dk di ek ei =
      rw (dk, di, ek, ei)
        (append_assoc a (":" ++ b) (":" ++ c) ∙ ap (λ s. a ++ s) (append_assoc ":" b (":" ++ c)))
