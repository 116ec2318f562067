-- ===== src/Mm/Merge.antt =====
-- `merge_free_blocks` joins a block with all the free blocks next to it, on both sides.
use minicore_os.Base.{
  ℕ, zero, suc, ◌+◌, ◌≤◌, ◌<◌, ◌≡◌, ◌≢◌, refl, Bool, true, false, [], ◌∷◌, arith, length, ◌==◌, ◌∙◌,
  ap, subst, sym, done, wrap32,
}
use minicore_os.Mm.{
  MemBlock, header_size, block, Headers, set_size, set_next, relink, swallow_next, swallow_by_prev,
  merge_next_loop, merge_prev_loop, kernel_heap_end,
}
use minicore_os.Mm.Memory.{modify_self, modify_ne}
use minicore_os.Mm.Layout.{
  Layout, link, onto, Focus-Lays, Lays, Lays-frame, Before-frame, Before-start, Focus,
  Focus-replace, Focus-stop, relink-Lays, relink_ne,
}

-- The bytes of the free blocks at the front, headers included, and the blocks behind those.
abbrev pub lead : Layout → ℕ
lead [] = 0
lead ((n, true) ∷ bs) = 16 + n + lead bs
lead ((n, false) ∷ bs) = 0

abbrev pub strip : Layout → Layout
strip [] = []
strip ((n, true) ∷ bs) = strip bs
strip ((n, false) ∷ bs) = (n, false) ∷ bs

pub length-strip : (bs : Layout) → length (strip bs) ≤ length bs
length-strip [] = omega arith
length-strip ((n, true) ∷ bs) = omega (arith, length-strip bs)
length-strip ((n, false) ∷ bs) = omega arith

module _ {h : Headers} {start stop : ℕ} {l : Layout} {n : ℕ} {f : Bool} {m : ℕ} {g : Bool}
    {r : Layout} {q : ℕ} (o : Focus h start stop l n f ((m, g) ∷ r) q)
    (small : stop ≤ kernel_heap_end) where
  abbrev nx : ℕ
  nx = q + 16 + n

  abbrev behind : ℕ
  behind = link r (nx + 16 + m)

  abbrev h1 : Headers
  h1 = set_size h q (n + m + 16)

  abbrev h2 : Headers
  h2 = set_next h1 q behind

  abbrev h3 : Headers
  h3 = relink h2 behind q

  size_fits : wrap32 (n + m + header_size) ≡ n + m + 16
  size_fits = omega (arith, Focus-stop o)

  swallow_is : swallow_next h q nx ≡ h3
  unfolding swallow_next
  swallow_is = rw (
    o.here,
    o.right.0,
    size_fits,
    modify_ne h q _ nx (omega arith),
    o.right.0,
    modify_ne h1 q _ nx (omega arith),
    modify_ne h q _ nx (omega arith),
    o.right.0,
  )

  at_block : h3 q ≡ block (n + m + 16) f behind o.prev
  at_block =
      relink_ne h2 q (nx + 16 + m) r q (omega arith)
      ∙ modify_self h1 q _
      ∙ ap (λ (b : MemBlock). record b { next = behind })
          (modify_self h q _ ∙ ap (λ (b : MemBlock). record b { size = n + m + 16 }) o.here)

  same : (a : ℕ) → a ≢ q → h2 a ≡ h a
  same a ne = modify_ne h1 q _ a ne ∙ modify_ne h q _ a ne

  right : Lays h3 q (nx + 16 + m) r stop
  right =
      relink-Lays h2 q nx (nx + 16 + m) r stop (omega arith)
        (Lays-frame h h2 nx (nx + 16 + m) r stop (λ a lo hi. same a (omega arith)) o.right.1)

  end_lem : nx + 16 + m ≡ q + 16 + (n + m + 16)
  end_lem = omega arith

  swallow_next-Focus : Focus (swallow_next h q nx) start stop l (n + m + 16) f r q
  swallow_next-Focus =
      subst (λ g. Focus g start stop l (n + m + 16) f r q) (sym swallow_is)
        (Focus-replace o h3 (n + m + 16) f r
          (λ a lt. relink_ne h2 q (nx + 16 + m) r a (omega arith) ∙ same a (omega arith))
          (subst (λ p. h3 q ≡ block (n + m + 16) f (link r p) o.prev) end_lem at_block)
          (subst (λ p. Lays h3 q p r stop) end_lem right))

module _ (start stop : ℕ) (l : Layout) (f : Bool) (q : ℕ) (small : stop ≤ kernel_heap_end) where
  pub merge_next_loop-Focus :
      (k : ℕ) (h : Headers) (n : ℕ) (r : Layout)
      → length r < k
      → Focus h start stop l n f r q
      → (h' : Headers) × (merge_next_loop k h q ≡ done h')
        × Focus h' start stop l (n + lead r) f (strip r) q
  unfolding merge_next_loop
  merge_next_loop-Focus zero h n r lt o = absurd (omega arith)
  merge_next_loop-Focus (suc k) h n [] lt o =
      (h, rw o.here refl, subst (λ v. Focus h start stop l v f [] q) (omega arith) o)
  merge_next_loop-Focus (suc k) h n ((m, false) ∷ r) lt o =
      let ne : (q + 16 + n == 0) ≡ false = ground arith in
      (
        h,
        rw (o.here, o.right.0, ne) refl,
        subst (λ v. Focus h start stop l v f ((m, false) ∷ r) q) (omega arith) o,
      )
  merge_next_loop-Focus (suc k) h n ((m, true) ∷ r) lt o =
      let (h', e, o') =
        merge_next_loop-Focus k (swallow_next h q (q + 16 + n)) (n + m + 16) r (omega arith)
          (swallow_next-Focus o small) in
      let ne : (q + 16 + n == 0) ≡ false = ground arith in
      (
        h',
        rw (o.here, o.right.0, ne) e,
        subst (λ v. Focus h' start stop l v f (strip r) q) (omega arith) o',
      )

module _ {h : Headers} {start stop : ℕ} {l : Layout} {m n : ℕ} {f g : Bool} {r : Layout} {q : ℕ}
    (o : Focus h start stop ((m, g) ∷ l) n f r q) (small : stop ≤ kernel_heap_end) where
  abbrev p : ℕ
  p = o.prev

  abbrev pp : ℕ
  pp = o.left.0

  abbrev after : ℕ
  after = link r (q + 16 + n)

  abbrev k1 : Headers
  k1 = set_size h p (m + n + 16)

  abbrev k2 : Headers
  k2 = set_next k1 p after

  abbrev k3 : Headers
  k3 = relink k2 after p

  swallowed_fits : wrap32 (m + n + header_size) ≡ m + n + 16
  swallowed_fits = omega (arith, Focus-stop o, o.left.1)

  kept_ne : (a : ℕ) → a ≢ p → k2 a ≡ h a
  kept_ne a ne = modify_ne k1 p _ a ne ∙ modify_ne h p _ a ne

  far : q ≢ p
  far = omega (arith, o.left.1)

  swallow_by_prev_is : swallow_by_prev h q p ≡ k3
  unfolding swallow_by_prev
  swallow_by_prev_is = rw (
    o.left.2,
    o.here,
    swallowed_fits,
    modify_ne h p _ q far,
    o.here,
    modify_ne k1 p _ q far,
    modify_ne h p _ q far,
    o.here,
  )

  at_prev : k3 p ≡ block (m + n + 16) g after pp
  at_prev =
      relink_ne k2 p (q + 16 + n) r p (omega (arith, o.left.1))
      ∙ modify_self k1 p _
      ∙ ap (λ (b : MemBlock). record b { next = after })
          (modify_self h p _ ∙ ap (λ (b : MemBlock). record b { size = m + n + 16 }) o.left.2)

  behind_prev : Lays k3 p (q + 16 + n) r stop
  behind_prev = relink-Lays k2 p q (q + 16 + n) r stop (omega arith) (
      Lays-frame h k2 q (q + 16 + n) r stop (λ a lo hi. kept_ne a (omega (arith, o.left.1)))
        o.right)

  whole : q + 16 + n ≡ p + 16 + (m + n + 16)
  whole = omega (arith, o.left.1)

  swallow_by_prev-Focus : Focus (swallow_by_prev h q p) start stop l (m + n + 16) g r p
  swallow_by_prev-Focus =
      subst (λ g'. Focus g' start stop l (m + n + 16) g r p) (sym swallow_by_prev_is)
        (record {
          prev = pp;
          left =
              Before-frame h k3 start l p pp p
                (λ a lt.
                  relink_ne k2 p (q + 16 + n) r a (omega (arith, o.left.1))
                  ∙ kept_ne a (omega arith))
                o.left.3;
          here = subst (λ e. k3 p ≡ block (m + n + 16) g (link r e) pp) whole at_prev;
          right = subst (λ e. Lays k3 p e r stop) whole behind_prev;
        })

module _ (start stop : ℕ) (r : Layout) (pos : 0 < start) (small : stop ≤ kernel_heap_end) where
  pub merge_prev_loop-Lays :
      (k : ℕ) (h : Headers) (l : Layout) (n q : ℕ)
      → length l < k
      → Focus h start stop l n true r q
      → (h' : Headers) × (merge_prev_loop k h q ≡ done h')
        × Lays h' 0 start (onto (strip l) ((lead l + n, true) ∷ r)) stop
  unfolding merge_prev_loop
  merge_prev_loop-Lays zero h l n q lt o = absurd (omega arith)
  merge_prev_loop-Lays (suc k) h [] n q lt o = (
    h,
    rw (o.here, o.left.1) refl,
    subst (λ v. Lays h 0 start ((v, true) ∷ r) stop) (omega arith) (Focus-Lays o),
  )
  merge_prev_loop-Lays (suc k) h ((m, false) ∷ l) n q lt o = (
    h,
    rw (o.here, o.left.2) (ground arith),
    subst (λ v. Lays h 0 start (onto l ((m, false) ∷ (v, true) ∷ r)) stop) (omega arith)
        (Focus-Lays o),
  )
  merge_prev_loop-Lays (suc k) h ((m, true) ∷ l) n q lt o =
      let (h', e, t) =
        merge_prev_loop-Lays k (swallow_by_prev h q o.prev) l (m + n + 16) o.prev (omega arith)
          (swallow_by_prev-Focus o small) in
      let ne : (o.prev == 0) ≡ false =
        ground (arith, Before-start h start l o.prev o.left.0 o.prev o.left.3) in
      (
        h',
        rw (o.here, o.left.2, ne) e,
        subst (λ v. Lays h' 0 start (onto (strip l) ((v, true) ∷ r)) stop) (omega arith) t,
      )
