-- ===== src/Afxdp/Frames/Laws.antt =====
-- What the frame allocator of onvm_afxdp.c promises.
use mathlib.Core.List.{reverse-append}
use afxdp_path_manager.Common.{
  ℕ, zero, suc, ◌+◌, ◌-◌, ◌≤◌, ◌<◌, ◌≡◌, refl, ◌∙◌, ap, List, [], ◌∷◌, ◌++◌, some, length, set,
  take, drop, count, replicate, arith, length-set, take-suc, take-set, get_or-set_self,
  count-append, take_all, Bool-cases, Option-cases, lt→ltb, ==_iff, inl, inr, ◌==◌, append_assoc,
  append-nil, reverse, take-nil, drop-nil, count-reverse, count-take-drop,
}
use afxdp_path_manager.Afxdp.Config.{num_frames, invalid_umem_frame}
use afxdp_path_manager.Afxdp.Frames.{
  Frames, alloc_umem_frame, free_umem_frame, alloc_frames, free_frames, frame_addrs, init_frames,
}

-- The array has its size, and the stack stays inside it.
pub record IsValid (f : Frames) : Type 0 where
  pub sized : length f.umem_frame_addr ≡ num_frames
  pub inside : f.umem_frame_free ≤ num_frames

-- The free frames, the next one to be handed out last.
abbrev pub free_list : Frames → List ℕ
free_list f = take f.umem_frame_free f.umem_frame_addr

pub alloc-none : (f : Frames) → f.umem_frame_free ≡ 0 → alloc_umem_frame f ≡ (invalid_umem_frame, f)
unfolding alloc_umem_frame
alloc-none f e = ground arith

-- What an allocation from a stack that is not empty does.
pub record Popped (f : Frames) (r : ℕ × Frames) : Type 0 where
  pub top : free_list f ≡ free_list r.1 ++ r.0 ∷ []
  pub fewer : r.1.umem_frame_free + 1 ≡ f.umem_frame_free
  pub valid : IsValid r.1

pub alloc-Popped : (f : Frames) → IsValid f → 0 < f.umem_frame_free → Popped f (alloc_umem_frame f)
unfolding alloc_umem_frame
alloc-Popped f v h = ground (
  arith,
  take-suc (f.umem_frame_free - 1) f.umem_frame_addr invalid_umem_frame,
  take-set (f.umem_frame_free - 1) (f.umem_frame_free - 1) f.umem_frame_addr invalid_umem_frame,
  length-set f.umem_frame_addr (f.umem_frame_free - 1) invalid_umem_frame,
)

-- What a release into a stack that is not full does.
pub record Pushed (f : Frames) (frame : ℕ) (g : Frames) : Type 0 where
  pub top : free_list g ≡ free_list f ++ frame ∷ []
  pub more : g.umem_frame_free ≡ f.umem_frame_free + 1
  pub valid : IsValid g

pub free-Pushed :
    (f : Frames) (frame : ℕ) {g : Frames}
    → IsValid f
    → free_umem_frame f frame ≡ some g
    → Pushed f frame g
unfolding free_umem_frame
free-Pushed f frame v e = ground (
  arith,
  take-suc f.umem_frame_free (set f.umem_frame_addr f.umem_frame_free frame) 0,
  take-set f.umem_frame_free f.umem_frame_free f.umem_frame_addr frame,
  get_or-set_self f.umem_frame_addr f.umem_frame_free frame 0,
  length-set f.umem_frame_addr f.umem_frame_free frame,
)

-- Allocations take the free frames from the top of the stack; past its end each one yields the
-- sentinel.
pub record Allocated (n : ℕ) (f : Frames) (r : List ℕ × Frames) : Type 0 where
  pub frames :
      r.0 ≡ take n (reverse (free_list f)) ++ replicate (n - f.umem_frame_free) invalid_umem_frame
  pub left : reverse (free_list r.1) ≡ drop n (reverse (free_list f))
  pub fewer : r.1.umem_frame_free ≡ f.umem_frame_free - n
  pub valid : IsValid r.1

alloc_frames-none :
    (n : ℕ) (f : Frames)
    → f.umem_frame_free ≡ 0
    → alloc_frames n f ≡ (replicate n invalid_umem_frame, f)
unfolding alloc_frames
alloc_frames-none zero f e = refl
alloc_frames-none (suc n) f e = rw (alloc-none f e, alloc_frames-none n f e)

-- An empty stack is left as it is.
alloc_frames-Allocated_empty :
    (n : ℕ) (f : Frames) → IsValid f → f.umem_frame_free ≡ 0 → Allocated n f (alloc_frames n f)
alloc_frames-Allocated_empty n f v e =
    let none_left : free_list f ≡ [] = rw e in
    let all : n - f.umem_frame_free ≡ n = omega arith in
    rw (alloc_frames-none n f e) (record {
      frames = rw (none_left, take-nil ℕ n, all);
      left = rw (none_left, drop-nil ℕ n);
      fewer = omega arith;
      valid = v;
    })

alloc_frames-Allocated_top :
    (n : ℕ) (f : Frames)
    → 0 < f.umem_frame_free
    → Popped f (alloc_umem_frame f)
    → Allocated n (alloc_umem_frame f).1 (alloc_frames n (alloc_umem_frame f).1)
    → Allocated (suc n) f (alloc_frames (suc n) f)
unfolding alloc_frames
alloc_frames-Allocated_top n f h p a =
    let g = (alloc_umem_frame f).1 in
    let x = (alloc_umem_frame f).0 in
    let rev : reverse (free_list f) ≡ x ∷ reverse (free_list g) =
      ap reverse p.top ∙ reverse-append (free_list g) (x ∷ []) in
    let short : suc n - f.umem_frame_free ≡ n - g.umem_frame_free = omega (arith, p.fewer) in
    record {
      frames = rw (rev, short) (ap (◌∷◌ x) a.frames);
      left = rw rev a.left;
      fewer = omega (arith, a.fewer, p.fewer);
      valid = a.valid;
    }

pub alloc_frames-Allocated : (n : ℕ) (f : Frames) → IsValid f → Allocated n f (alloc_frames n f)
unfolding alloc_frames
alloc_frames-Allocated zero f v =
    let none_left : 0 - f.umem_frame_free ≡ 0 = omega arith in
    record { frames = rw none_left; left = refl; fewer = omega arith; valid = v }
alloc_frames-Allocated (suc n) f v = elim (Bool-cases (f.umem_frame_free == 0)) [
  | inl e ↦ alloc_frames-Allocated_empty (suc n) f v ((==_iff _ _).0 e)
  | inr e ↦
      let h : 0 < f.umem_frame_free = ground arith in
      let p = alloc-Popped f v h in
      alloc_frames-Allocated_top n f h p (alloc_frames-Allocated n (alloc_umem_frame f).1 p.valid)
]

-- Allocations lose no frame, and make none up but the sentinels past the end of the stack.
pub count-alloc_frames :
    (a n : ℕ) (f : Frames)
    → IsValid f
    → count a (alloc_frames n f).0 + count a (free_list (alloc_frames n f).1)
      ≡ count a (free_list f) + count a (replicate (n - f.umem_frame_free) invalid_umem_frame)
count-alloc_frames a n f v =
    let r = alloc_frames-Allocated n f v in
    omega (
      arith,
      ap (count a) r.frames,
      ap (count a) r.left,
      count-append a (take n (reverse (free_list f)))
          (replicate (n - f.umem_frame_free) invalid_umem_frame),
      count-take-drop a n (reverse (free_list f)),
      count-reverse a (free_list f),
      count-reverse a (free_list (alloc_frames n f).1),
    )

pub length-alloc_frames : (n : ℕ) (f : Frames) → length (alloc_frames n f).0 ≡ n
unfolding alloc_frames
length-alloc_frames zero f = refl
length-alloc_frames (suc n) f = ap suc (length-alloc_frames n (alloc_umem_frame f).1)

-- Releases put the frames on the stack in order.
pub record Freed (f : Frames) (frames : List ℕ) (g : Frames) : Type 0 where
  pub stack : free_list g ≡ free_list f ++ frames
  pub more : g.umem_frame_free ≡ f.umem_frame_free + length frames
  pub valid : IsValid g

pub free_frames-Freed :
    (frames : List ℕ) (f : Frames) {g : Frames}
    → IsValid f
    → free_frames f frames ≡ some g
    → Freed f frames g
unfolding free_frames
free_frames-Freed [] f v e = ground (arith, append-nil (free_list f))
free_frames-Freed (x ∷ xs) f {g} v e = elim (Option-cases (free_umem_frame f x)) [
  | inl miss ↦ cc
  | inr (f', hit) ↦
      let p = free-Pushed f x v hit in
      ground (
        arith,
        free_frames-Freed xs f' {g = g} p.valid,
        p.top,
        p.more,
        append_assoc (free_list f) (x ∷ []) xs,
      )
]

-- They succeed exactly if there is room for all of them: then no assertion fails.
pub free_frames-total :
    (frames : List ℕ) (f : Frames)
    → f.umem_frame_free + length frames ≤ num_frames
    → (g : Frames) × (free_frames f frames ≡ some g)
unfolding free_frames free_umem_frame
free_frames-total [] f h = (f, refl)
free_frames-total (x ∷ xs) f h =
    rw (lt→ltb f.umem_frame_free num_frames (omega arith)) (free_frames-total xs _ (omega arith))

-- A stack that starts out full holds the addresses `0`, `frame_size`, `2 * frame_size`, ...
pub length-frame_addrs : (z i n : ℕ) → length (frame_addrs z i n) ≡ n
unfolding frame_addrs
length-frame_addrs z i zero = refl
length-frame_addrs z i (suc n) = ap suc (length-frame_addrs z (i + 1) n)

pub init_frames-IsValid : (z : ℕ) → IsValid (init_frames z)
unfolding init_frames
init_frames-IsValid z = record { sized = length-frame_addrs z 0 num_frames; inside = omega arith }

pub free_list-init_frames : (z : ℕ) → free_list (init_frames z) ≡ frame_addrs z 0 num_frames
unfolding init_frames
free_list-init_frames z =
    take_all num_frames (frame_addrs z 0 num_frames)
      (omega (arith, length-frame_addrs z 0 num_frames))

pub free-init_frames : (z : ℕ) → (init_frames z).umem_frame_free ≡ num_frames
unfolding init_frames
free-init_frames z = refl
