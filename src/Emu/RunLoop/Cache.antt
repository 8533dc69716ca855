-- ===== src/Emu/RunLoop/Cache.antt =====
-- src/emu/processor-runloop.h: the cache of decoded instructions.
use mathlib.Core.Path.{subst}
use rv8_riscv_ckpt.Base.{
  assign, ◌^◌, ◌+◌, Option, ==_iff, zero, suc, none, some, ◌||◌, ◌&&◌, if◌then◌else◌, not,
}
use rv8_riscv_ckpt.Emu.RunLoop.{
  cause_poweroff, go_on, cause_fatal, cause_cli, ExitCause, turn, step, settle, run, iteration,
  caught, inst_cache_size, legal, after_fetch, retire, or_priv, fresh, Result, Core, execute,
  cached, Loop, CacheEnt, Processor,
}
use rv8_riscv_ckpt.Base.{sym, inr, ◌∙◌, inl, ◌==◌, ◌%◌, refl, ◌⊎◌, ◌≢◌, ap, Bool-cases, ◌≡◌, ℕ}

-- Two decoded instructions that no operation of the processor tells apart, and whose decoding does not
-- depend on what was decoded before. The decoder and the interpreter of src/emu are such a processor
-- (`machine-Decodes`).
pub record Decodes {S D : Type 0} (P : Processor S D) : Type 1 where
  pub Same : D → D → Type 0
  pub same_self : (d : D) → Same d d
  pub decode_same : (d e : D) (inst : ℕ) → Same (P.inst_decode d inst) (P.inst_decode e inst)
  pub trap_same :
      (d e : D) → Same d e → (cause : ℕ) (c : Core S) → P.trap d cause c ≡ P.trap e cause c
  pub checkpoint_fetch_same :
      (d e : D)
      → Same d e
      → (inst o : ℕ) (c : Core S) → P.checkpoint_fetch d inst o c ≡ P.checkpoint_fetch e inst o c
  pub exec_same :
      (d e : D) → Same d e → (o : ℕ) (c : Core S) → P.inst_exec d o c ≡ P.inst_exec e o c
  pub priv_same :
      (d e : D) → Same d e → (o : ℕ) (c : Core S) → P.inst_priv d o c ≡ P.inst_priv e o c
  pub checkpoint_execute_same :
      (d e : D) → Same d e → (c : Core S) → P.checkpoint_execute d c ≡ P.checkpoint_execute e c

pub cached_core :
    {S D : Type 0} (P : Processor S D) (inst : ℕ) (l : Loop S D) → (cached P inst l).core ≡ l.core
unfolding cached
cached_core P inst l = elim (Bool-cases ((l.inst_cache (inst % inst_cache_size)).inst == inst)) [
  | inl hit ↦ rw hit refl
  | inr miss ↦ rw miss refl
]

module _ {S D : Type 0} (P : Processor S D) where
  -- The word that a fetch gives is not 0, the word that an empty entry of the cache holds.
  abbrev pub IsWord : Result (ℕ × ℕ) × Core S → Type 0
  IsWord (Result.value f, c) = f.0 ≢ 0
  IsWord (Result.raised cause, c) = Unit

  -- In a turn that fetches.
  abbrev pub TurnHasWord : ℕ → Core S → Type 0
  TurnHasWord inststop c =
      if c.instret == inststop
      then Unit
      else if c.pc == c.breakpoint && not (c.breakpoint == 0)
      then Unit
      else IsWord (P.inst_fetch c)

  abbrev pub AfterTurn : (Loop S D → Type 0) → Option ExitCause × Loop S D → Type 0
  AfterTurn f (none, m) = f m
  AfterTurn f (some e, m) = Unit

  -- In each of that many turns of the run that decodes every instruction, or fewer when it ends.
  unfoldable pub HasWords : ℕ → ℕ → ℕ → Loop S D → Type 0
  HasWords w inststop zero m = Unit
  HasWords w inststop (suc n) m =
      TurnHasWord inststop m.core
      × AfterTurn (HasWords w inststop n) (turn P (fresh P) w inststop m)

module _ {S D : Type 0} (P : Processor S D) (laws : Decodes P) where
  -- An entry of the cache is empty, or it holds what decoding its word gives.
  abbrev IsEntry : CacheEnt D → Type 0
  IsEntry e = (e.inst ≡ 0) ⊎ ((d : D) → laws.Same e.dec (P.inst_decode d e.inst))

  abbrev IsCache : (ℕ → CacheEnt D) → Type 0
  IsCache cache = (key : ℕ) → IsEntry (cache key)

  abbrev pub Agree : Loop S D → Loop S D → Type 0
  Agree l m = (l.core ≡ m.core) × laws.Same l.dec m.dec × IsCache l.inst_cache

  assign-IsCache :
      (cache : ℕ → CacheEnt D) (key : ℕ) (e : CacheEnt D)
      → IsCache cache
      → IsEntry e
      → IsCache (assign cache key e)
  assign-IsCache cache key e all here k = elim (Bool-cases (k == key)) [
    | inl same ↦ rw same here
    | inr other ↦ rw other (all k)
  ]

  cached-fresh :
      (inst : ℕ) (l m : Loop S D) → inst ≢ 0 → Agree l m → Agree (cached P inst l) (fresh P inst m)
  unfolding cached fresh
  cached-fresh inst l m word agree = elim (Bool-cases (e.inst == inst)) [
    | inl hit ↦ rw hit (agree.0, known ((==_iff e.inst inst).0 hit) (agree.2 key), agree.2)
    | inr miss ↦ rw miss (
      agree.0,
      laws.decode_same l.dec m.dec inst,
      assign-IsCache l.inst_cache key (record { inst = inst; dec = P.inst_decode l.dec inst })
          agree.2 (inr λ d. laws.decode_same l.dec d inst),
    )
  ]
    where
      key : ℕ
      key = inst % inst_cache_size

      e : CacheEnt D
      e = l.inst_cache key

      known : e.inst ≡ inst → IsEntry e → laws.Same e.dec (P.inst_decode m.dec inst)
      known same (inl empty) = absurd (word (sym same ∙ empty))
      known same (inr decoded) =
          subst (λ i. laws.Same e.dec (P.inst_decode m.dec i)) same (decoded m.dec)

  retire_same :
      (w : ℕ) (d e : D) (r : Result ℕ × Core S) → laws.Same d e → retire P w d r ≡ retire P w e r
  retire_same w d e (Result.value t, c) s = rw (laws.checkpoint_execute_same d e s c) refl
  retire_same w d e (Result.raised cause, c) s = refl

  or_priv_same :
      (w : ℕ) (d e : D) (o : ℕ) (r : Result ℕ × Core S)
      → laws.Same d e
      → or_priv P w d o r ≡ or_priv P w e o r
  or_priv_same w d e o (Result.value t, c) s = rw (laws.priv_same d e s o c) refl
  or_priv_same w d e o (Result.raised cause, c) s = refl

  execute_same :
      (w : ℕ) (d e : D) (inst o : ℕ) (c : Core S)
      → laws.Same d e
      → execute P w d inst o c ≡ execute P w e inst o c
  unfolding execute
  execute_same w d e inst o c s =
      let c1 = P.checkpoint_fetch d inst o c in
      ap (λ t. retire P w d (legal P w (or_priv P w d o t))) (laws.exec_same d e s o c1)
      ∙ ap (λ t. retire P w d (legal P w t)) (or_priv_same w d e o (P.inst_exec e o c1) s)
      ∙ retire_same w d e (legal P w (or_priv P w e o (P.inst_exec e o c1))) s
      ∙ ap (λ t. retire P w e (legal P w (or_priv P w e o (P.inst_exec e o t))))
          (laws.checkpoint_fetch_same d e s inst o c)

  -- Two loops go the same way, and agree afterwards.
  abbrev Together : {A : Type 0} → A × Loop S D → A × Loop S D → Type 0
  Together r q = (r.0 ≡ q.0) × Agree r.1 q.1

  after_fetch-Agree :
      (w : ℕ) (l m : Loop S D) (r : Result (ℕ × ℕ) × Core S)
      → IsWord P r
      → Agree l m
      → Together (after_fetch P (cached P) w l r) (after_fetch P (fresh P) w m r)
  after_fetch-Agree w l m (Result.value (inst, o), c) word agree =
      let l1 = cached P inst (record l { core = c }) in
      let m1 = fresh P inst (record m { core = c }) in
      let a : Agree l1 m1 =
        cached-fresh inst (record l { core = c }) (record m { core = c }) word
          (refl, agree.1, agree.2) in
      let e =
        execute_same w l1.dec m1.dec inst o l1.core a.1
        ∙ ap (λ t. execute P w m1.dec inst o t) a.0 in
      (ap (λ t. t.0) e, (ap (λ t. t.1) e, a.1, a.2))
  after_fetch-Agree w l m (Result.raised cause, c) word agree = (refl, (refl, agree.1, agree.2))

  iteration-Agree :
      (w : ℕ) (l m : Loop S D)
      → Agree l m
      → IsWord P (P.inst_fetch l.core)
      → Together (iteration P (cached P) w l) (iteration P (fresh P) w m)
  unfolding iteration
  iteration-Agree w l m agree word =
      subst
        (λ c. Together (iteration P (cached P) w l) (after_fetch P (fresh P) w m (P.inst_fetch c)))
        agree.0 (after_fetch-Agree w l m (P.inst_fetch l.core) word agree)

  caught-Agree :
      (w cause : ℕ) (l m : Loop S D)
      → Agree l m
      → Together (caught P (cached P) w cause l) (caught P (fresh P) w cause m)
  unfolding caught
  caught-Agree w cause l m agree = elim (Bool-cases (cause == cause_cli)) [
    | inl asked ↦ rw asked (refl, agree)
    | inr other ↦ elim (Bool-cases (cause == cause_fatal || cause == cause_poweroff)) [
      | inl ends ↦ rw (other, ends) (refl, agree)
      | inr taken ↦
          let e : P.trap l.dec cause l.core ≡ P.trap m.dec cause m.core =
            laws.trap_same l.dec m.dec agree.1 cause l.core ∙ ap (P.trap m.dec cause) agree.0 in
          rw (other, taken)
            (
              ap (λ (c : Core S). if c.running then none else some ExitCause.poweroff) e,
              (e, agree.1, agree.2),
            )
    ]
  ]

  settle-Agree :
      (w : ℕ) (r q : Result Unit × Loop S D)
      → Together r q
      → Together (settle P (cached P) w r) (settle P (fresh P) w q)
  settle-Agree w (Result.value t, l) (Result.value u, m) h = (refl, h.1)
  settle-Agree w (Result.raised cause, l) (Result.raised cause', m) h =
      subst (λ c. Together (caught P (cached P) w cause l) (settle P (fresh P) w (c, m))) h.0
        (caught-Agree w cause l m h.1)
  settle-Agree w (Result.value t, l) (Result.raised cause, m) h = cc
  settle-Agree w (Result.raised cause, l) (Result.value t, m) h = cc

  turn-Agree :
      (w inststop : ℕ) (l m : Loop S D)
      → Agree l m
      → TurnHasWord P inststop l.core
      → Together (turn P (cached P) w inststop l) (turn P (fresh P) w inststop m)
  turn-Agree w inststop l m agree word =
      subst
        (λ (c : Core S). Together (turn P (cached P) w inststop l) (
          if c.instret == inststop
          then (some ExitCause.continue, m)
          else if c.pc == c.breakpoint && not (c.breakpoint == 0)
          then (some ExitCause.cli, m)
          else settle P (fresh P) w (iteration P (fresh P) w m)))
        agree.0
        (elim (Bool-cases (l.core.instret == inststop)) [
          | inl stops ↦ rw stops (refl, agree)
          | inr goes ↦
              elim (Bool-cases (l.core.pc == l.core.breakpoint && not (l.core.breakpoint == 0))) [
                | inl breaks ↦ rw (goes, breaks) (refl, agree)
                | inr steps ↦
                    rw (goes, steps)
                      (settle-Agree w (iteration P (cached P) w l) (iteration P (fresh P) w m)
                        (iteration-Agree w l m agree (rw (goes, steps) at word)))
              ]
        ])

  go_on-Agree :
      (w : ℕ) (f g : Loop S D → Option ExitCause × Loop S D) (r q : Option ExitCause × Loop S D)
      (H : Loop S D → Type 0)
      → ((l m : Loop S D) → Agree l m → H m → Together (f l) (g m))
      → Together r q
      → AfterTurn P H q
      → Together (go_on P (cached P) w f r) (go_on P (fresh P) w g q)
  go_on-Agree w f g (none, l) (none, m) H k h words = k l m h.1 words
  go_on-Agree w f g (some e, l) (some e', m) H k h words = h
  go_on-Agree w f g (none, l) (some e, m) H k h words = cc
  go_on-Agree w f g (some e, l) (none, m) H k h words = cc

  run-Agree :
      (w inststop turns : ℕ) (l m : Loop S D)
      → Agree l m
      → HasWords P w inststop turns m
      → Together (run P (cached P) w inststop turns l) (run P (fresh P) w inststop turns m)
  unfolding run HasWords
  run-Agree w inststop zero l m agree words = (refl, agree)
  run-Agree w inststop (suc turns) l m agree words =
      let word : TurnHasWord P inststop l.core =
        subst (TurnHasWord P inststop) (sym agree.0) words.0 in
      go_on-Agree w (run P (cached P) w inststop turns) (run P (fresh P) w inststop turns)
        (turn P (cached P) w inststop l) (turn P (fresh P) w inststop m)
        (HasWords P w inststop turns) (λ l' m'. run-Agree w inststop turns l' m')
        (turn-Agree w inststop l m agree word) words.1

  -- Decoding through the cache is decoding: from loops that agree, in which every entry of the cache
  -- is empty or was decoded from its word, a step through the cache and a step that decodes every
  -- instruction end in the same way after the same number of turns, or both go on, with traps and
  -- breakpoints on the way, and they agree again, if no word that the second one fetches in these turns
  -- is 0.
  pub step-cached :
      (w turns count : ℕ) (l m : Loop S D)
      → Agree l m
      → HasWords P w
          ((m.core.instret + count) % 2 ^ w)
          turns
          (record m { core = P.isr (P.clock m.core) })
      → ((step P (cached P) w turns count l).0 ≡ (step P (fresh P) w turns count m).0)
        × Agree (step P (cached P) w turns count l).1 (step P (fresh P) w turns count m).1
  unfolding step
  step-cached w turns count l m agree words =
      let same : HasWords P w ((l.core.instret + count) % 2 ^ w) turns
          (record m { core = P.isr (P.clock l.core) }) =
        subst
          (λ (c : Core S).
            HasWords P w ((c.instret + count) % 2 ^ w) turns
              (record m { core = P.isr (P.clock c) }))
          (sym agree.0) words in
      subst
        (λ (c : Core S). Together (step P (cached P) w turns count l) (
          run P (fresh P) w ((c.instret + count) % 2 ^ w) turns
            (record m { core = P.isr (P.clock c) })))
        agree.0
        (run-Agree w ((l.core.instret + count) % 2 ^ w) turns
          (record l { core = P.isr (P.clock l.core) }) (record m { core = P.isr (P.clock l.core) })
          (refl, agree.1, agree.2) same)
