-- ===== src/Actions/Reverts.antt =====
-- What a rollback does to the files: rollback-engine.ts.
use code_kit_ultra.Base.{
  String, ◌≡◌, refl, List, [], ◌∷◌, none, some, Bool, true, false, ◌&&◌, All, All-split, All-map,
  if-split,
}
use code_kit_ultra.Actions.Runner.{EntryType, RollbackEntry}
use code_kit_ultra.Actions.Rollback.{
  Files, RollbackOutcome, Undoing, reverse, skip, removed, undo, undo_all, undo_files, rollback_run,
}

module _ {W : Type 0} (files : Files W) where
  -- What the file system documents: a file that could be removed is gone, and no removal makes anything
  -- appear.
  pub record IsRemoving : Type 0 where
    pub removes :
        (t : String) (w : W)
        → (files.unlink t w).0 ≡ true
        → files.exists t (files.unlink t w).1 ≡ false
    pub unlink_keeps :
        (t u : String) (w : W)
        → files.exists t w ≡ false
        → files.exists t (files.unlink u w).1 ≡ false
    pub rmdir_keeps :
        (t u : String) (w : W)
        → files.exists t w ≡ false
        → files.exists t (files.rmdir u w).1 ≡ false

  -- The file that the entry says was written is not there.
  abbrev pub IsGone : W → RollbackEntry → Type 0
  IsGone w e = e.entry_type ≡ EntryType.file_write → files.exists e.target w ≡ false

  -- The rollback has not thrown.
  abbrev Returns : Undoing W → RollbackOutcome → Type 0
  Returns s o = s.0 ≡ some o

  removed-world : (o : RollbackOutcome) (r : Bool × W) → (removed o r).1 ≡ r.1
  unfolding removed
  removed-world o (true, w) = refl
  removed-world o (false, w) = refl

  removed-true : (o p : RollbackOutcome) (r : Bool × W) → Returns (removed o r) p → r.0 ≡ true
  unfolding removed
  removed-true o p (true, w) h = refl
  removed-true o p (false, w) h = cc

  module _ (laws : IsRemoving) (x : String) where
    -- The file is not there.
    abbrev IsAbsent : Undoing W → Type 0
    IsAbsent s = files.exists x s.1 ≡ false

    undo-IsAbsent :
        (t : EntryType) (target : String) (o : RollbackOutcome) (w : W)
        → files.exists x w ≡ false
        → IsAbsent (undo files t target o w)
    unfolding undo
    undo-IsAbsent EntryType.file_write target o w h =
        if-split IsAbsent (files.exists target w) _ _
          (λ _. rw (removed-world o (files.unlink target w)) (laws.unlink_keeps x target w h))
          (λ _. h)
    undo-IsAbsent EntryType.dir_create target o w h =
        if-split IsAbsent (files.exists target w && files.is_empty_dir target w) _ _
          (λ _. rw (removed-world o (files.rmdir target w)) (laws.rmdir_keeps x target w h))
          (λ _. h)
    undo-IsAbsent EntryType.file_append target o w h = h
    undo-IsAbsent EntryType.command target o w h = h

    undo_all-IsAbsent :
        (es : List RollbackEntry) (s : Undoing W) → IsAbsent s → IsAbsent (undo_all files es s)
    unfolding undo_all
    undo_all-IsAbsent es (none, w) h = h
    undo_all-IsAbsent [] (some o, w) h = h
    undo_all-IsAbsent (e ∷ es) (some o, w) h =
        undo_all-IsAbsent es _ (undo-IsAbsent e.entry_type e.target o w h)

    undo_files-IsAbsent :
        (metas : List (List RollbackEntry)) (s : Undoing W)
        → IsAbsent s
        → IsAbsent (undo_files files metas s)
    unfolding undo_files
    undo_files-IsAbsent [] s h = h
    undo_files-IsAbsent (es ∷ rest) s h =
        undo_files-IsAbsent rest _ (undo_all-IsAbsent (reverse es) s h)

  -- A rollback that has thrown stays so.
  undo_all-none : (es : List RollbackEntry) (w : W) → undo_all files es (none, w) ≡ (none, w)
  unfolding undo_all
  undo_all-none [] w = refl
  undo_all-none (e ∷ es) w = refl

  undo_files-none :
      (metas : List (List RollbackEntry)) (w : W) → undo_files files metas (none, w) ≡ (none, w)
  unfolding undo_files
  undo_files-none [] w = refl
  undo_files-none (es ∷ rest) w = rw (undo_all-none (reverse es) w) (undo_files-none rest w)

  All-reverse : {A : Type 0} (P : A → Type 0) (xs : List A) → All P (reverse xs) → All P xs
  unfolding reverse
  All-reverse P [] h = tt
  All-reverse P (x ∷ xs) h =
      let k = All-split P (reverse xs) (x ∷ []) h in (k.1.0, All-reverse P xs k.0)

  module _ (laws : IsRemoving) where
    undo-removes :
        (t : EntryType) (target : String) (o p : RollbackOutcome) (w : W)
        → Returns (undo files t target o w) p
        → t ≡ EntryType.file_write
        → files.exists target (undo files t target o w).1 ≡ false
    unfolding undo
    undo-removes EntryType.file_write target o p w r h =
        if-split (λ (s : Undoing W). Returns s p → files.exists target s.1 ≡ false)
          (files.exists target w) (removed o (files.unlink target w)) (some (skip o), w)
          (λ _ q.
            rw (removed-world o (files.unlink target w))
              (laws.removes target w (removed-true o p (files.unlink target w) q)))
          (λ e _. e) r
    undo-removes EntryType.dir_create target o p w r h = cc
    undo-removes EntryType.file_append target o p w r h = cc
    undo-removes EntryType.command target o p w r h = cc

    -- The rest of the entries, given how the first was undone.
    after_undo :
        (es : List RollbackEntry) (e : RollbackEntry) (p : RollbackOutcome) (s : Undoing W)
        → ((q : RollbackOutcome) → Returns s q → IsGone s.1 e)
        → ((q : RollbackOutcome) (w : W)
            → Returns (undo_all files es (some q, w)) p
            → All (IsGone (undo_all files es (some q, w)).1) es)
        → Returns (undo_all files es s) p
        → All (IsGone (undo_all files es s).1) (e ∷ es)
    after_undo es e p (none, w) first rest r = absurd (cc (undo_all-none es w, r))
    after_undo es e p (some q, w) first rest r =
        (λ h. undo_all-IsAbsent laws e.target es (some q, w) (first q refl h), rest q w r)

    undo_all-IsGone :
        (es : List RollbackEntry) (o p : RollbackOutcome) (w : W)
        → Returns (undo_all files es (some o, w)) p
        → All (IsGone (undo_all files es (some o, w)).1) es
    unfolding undo_all
    undo_all-IsGone [] o p w r = tt
    undo_all-IsGone (e ∷ es) o p w r =
        after_undo es e p (undo files e.entry_type e.target o w)
          (λ q t h. undo-removes e.entry_type e.target o q w t h)
          (λ q v t. undo_all-IsGone es q p v t) r

    after_file :
        (metas : List (List RollbackEntry)) (es : List RollbackEntry) (p : RollbackOutcome)
        (s : Undoing W)
        → ((q : RollbackOutcome) → Returns s q → All (IsGone s.1) es)
        → ((q : RollbackOutcome) (w : W)
            → Returns (undo_files files metas (some q, w)) p
            → All (All (IsGone (undo_files files metas (some q, w)).1)) metas)
        → Returns (undo_files files metas s) p
        → All (All (IsGone (undo_files files metas s).1)) (es ∷ metas)
    after_file metas es p (none, w) first rest r = absurd (cc (undo_files-none metas w, r))
    after_file metas es p (some q, w) first rest r = (
      All-map (λ e g h. undo_files-IsAbsent laws e.target metas (some q, w) (g h)) es
          (first q refl),
      rest q w r,
    )

    undo_files-IsGone :
        (metas : List (List RollbackEntry)) (o p : RollbackOutcome) (w : W)
        → Returns (undo_files files metas (some o, w)) p
        → All (All (IsGone (undo_files files metas (some o, w)).1)) metas
    unfolding undo_files
    undo_files-IsGone [] o p w r = tt
    undo_files-IsGone (es ∷ rest) o p w r =
        after_file rest es p (undo_all files (reverse es) (some o, w))
          (λ q t. All-reverse _ es (undo_all-IsGone (reverse es) o q w t))
          (λ q v t. undo_files-IsGone rest q p v t) r

    -- After a rollback that returns, no file is there that an entry of the rollback files says was
    -- written, also none that stood there before it was overwritten, on a file system where a file that
    -- could be removed is gone and no removal makes a file appear.
    pub rollback_run-IsGone :
        (metas : List (List RollbackEntry)) (w : W) (o : RollbackOutcome)
        → (rollback_run files metas w).0 ≡ some o
        → All (All (IsGone (rollback_run files metas w).1)) metas
    unfolding rollback_run
    rollback_run-IsGone metas w o r =
        All-reverse _ metas (undo_files-IsGone (reverse metas) _ o w r)
