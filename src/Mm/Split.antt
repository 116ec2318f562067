-- ===== src/Mm/Split.antt =====
-- `split_block` on a block of the chain.
use minicore_os.Base.{
  ℕ, ◌+◌, ◌-◌, ◌≤◌, ◌<◌, ◌≡◌, ◌≢◌, Bool, true, ◌∷◌, arith, ltb, ltb→lt, lt→ltb, ap, ◌∙◌, wrap32,
  sub32, if◌then◌else◌, Bool-cases, inl, inr, subst, sym,
}
use minicore_os.Mm.{
  MemBlock, header_size, block, Headers, write, set_size, set_next, relink, insert_block,
  split_block, kernel_heap_end,
}
use minicore_os.Mm.Memory.{modify_self, modify_ne}
use minicore_os.Mm.Layout.{
  Layout, link, Lays, Lays-frame, Focus, Focus-stop, Focus-replace, relink-Lays, relink_ne,
}

-- What a block of `n` bytes cut down to `size` leaves: itself, and a free rest where one is worth it.
abbrev pub cut : ℕ → ℕ → Bool
cut size n = ltb (size + 48) n

abbrev pub kept : ℕ → ℕ → ℕ
kept size n = if cut size n then size else n

abbrev pub rest : ℕ → ℕ → Layout → Layout
rest size n r = if cut size n then (n - size - 16, true) ∷ r else r

pub kept-ge : (size n : ℕ) → size ≤ n → size ≤ kept size n
kept-ge size n fits = ground arith

module _ {h : Headers} {start stop : ℕ} {l : Layout} {n : ℕ} {f : Bool} {r : Layout} {q : ℕ}
    (o : Focus h start stop l n f r q) (small : stop ≤ kernel_heap_end) (size : ℕ)
    (room : size + 48 < n) where
  abbrev nb : ℕ
  nb = q + 16 + size

  abbrev h1 : Headers
  h1 = write h nb (block (n - size - 16) true (link r (q + 16 + n)) q)

  abbrev h2 : Headers
  h2 = relink h1 (link r (q + 16 + n)) nb

  abbrev h3 : Headers
  h3 = set_next h2 q nb

  abbrev h4 : Headers
  h4 = set_size h3 q size

  below : (a : ℕ) → a < nb → a ≢ q → h4 a ≡ h a
  below a lt ne =
      modify_ne h3 q _ a ne
      ∙ modify_ne h2 q _ a ne
      ∙ relink_ne h1 nb (q + 16 + n) r a (omega arith)
      ∙ modify_ne h nb _ a (omega arith)

  at_block : h4 q ≡ block size f nb o.prev
  at_block =
      modify_self h3 q _
      ∙ ap (λ (b : MemBlock). record b { size = size })
          (modify_self h2 q _
            ∙ ap (λ (b : MemBlock). record b { next = nb })
                (relink_ne h1 nb (q + 16 + n) r q (omega arith)
                  ∙ modify_ne h nb _ q (omega arith)
                  ∙ o.here))

  above : (a : ℕ) → nb ≤ a → h4 a ≡ h2 a
  above a le = modify_ne h3 q _ a (omega arith) ∙ modify_ne h2 q _ a (omega arith)

  at_new : h4 nb ≡ block (n - size - 16) true (link r (q + 16 + n)) q
  at_new =
      above nb (omega arith) ∙ relink_ne h1 nb (q + 16 + n) r nb (omega arith) ∙ modify_self h nb _

  behind : Lays h4 nb (q + 16 + n) r stop
  behind =
      Lays-frame h2 h4 nb (q + 16 + n) r stop (λ a lo hi. above a (omega arith))
        (relink-Lays h1 nb q (q + 16 + n) r stop (omega arith) (
          Lays-frame h h1 q (q + 16 + n) r stop (λ a lo hi. modify_ne h nb _ a (omega arith))
            o.right))

  end_lem : q + 16 + n ≡ nb + 16 + (n - size - 16)
  end_lem = omega arith

  rest_size : sub32 (sub32 n size) header_size ≡ n - size - 16
  rest_size = omega (arith, Focus-stop o)

  split_here : Focus h4 start stop l size f ((n - size - 16, true) ∷ r) q
  split_here =
      Focus-replace o h4 size f ((n - size - 16, true) ∷ r)
        (λ a lt. below a (omega arith) (omega arith)) at_block
        (
          subst (λ p. h4 nb ≡ block (n - size - 16) true (link r p) q) end_lem at_new,
          subst (λ p. Lays h4 nb p r stop) end_lem behind,
        )

  insert_here : insert_block h q size nb ≡ h4
  unfolding insert_block
  insert_here = rw (modify_ne h nb _ q (omega arith), o.here, rest_size)

  split_is : split_block h q size ≡ h4
  unfolding split_block
  split_is =
      let e1 : wrap32 (size + header_size + 32) ≡ size + 48 = omega (arith, Focus-stop o) in
      let e2 : wrap32 (q + header_size + size) ≡ nb = omega (arith, Focus-stop o) in
      rw (o.here, e1, lt→ltb (size + 48) n room, e2) insert_here

module _ {h : Headers} {start stop : ℕ} {l : Layout} {n : ℕ} {f : Bool} {r : Layout} {q : ℕ}
    (o : Focus h start stop l n f r q) (small : stop ≤ kernel_heap_end) (size : ℕ)
    (fits : size ≤ n) where
  -- On a block of the chain `split_block` leaves a chain in which the block is cut down to `size`,
  -- with a free block behind it, where that leaves more than 32 bytes; and else the same chain.
  pub split_block-Focus :
      Focus (split_block h q size) start stop l (kept size n) f (rest size n r) q
  unfolding split_block
  split_block-Focus =
      let e : wrap32 (size + header_size + 32) ≡ size + 48 = omega (arith, Focus-stop o) in
      elim (Bool-cases (cut size n)) [
        | inl big ↦ rw big (
            subst (λ g. Focus g start stop l size f ((n - size - 16, true) ∷ r) q)
              (sym (split_is o small size (ltb→lt _ _ big)))
              (split_here o small size (ltb→lt _ _ big)))
        | inr fit ↦ rw (o.here, e, fit) o
      ]
