-- ===== src/Dwarf/Instructions/Remember.antt =====
-- The stack of remembered states in src/dwarf/parser.cpp: DW_CFA_remember_state and
-- DW_CFA_restore_state around other instructions.
use egalito.Base.{ℕ, ◌%◌, ◌≡◌, refl, sym, ap, subst, ◌∙◌, ◌≢◌, List, [], ◌∷◌}
use egalito.Base.Result.{Result, ok, fail, ◌>>=◌}
use egalito.Dwarf.Cursor.{
  Memory, DwarfCursor, next, skip, next_uleb128, next_sleb128, next_encoded_pointer,
}
use egalito.Dwarf.Expressions.{decode}
use egalito.Dwarf.State.{DwarfState, get_register, set_register}
use egalito.Dwarf.Instructions.{
  CfaOpcode, advance_loc, dw_offset, restore, nop, set_loc, advance_loc1, advance_loc2,
  advance_loc4, offset_extended, restore_extended, undefined, same_value, register, remember_state,
  restore_state, def_cfa, def_cfa_register, def_cfa_offset, def_cfa_expression, expression,
  offset_extended_sf, def_cfa_sf, def_cfa_offset_sf, val_offset, val_offset_sf, val_expression,
  mips_advance_loc8, gnu_window_save, gnu_args_size, gnu_negative_offset_extended, user_defined,
  DwarfCie, get_augmentation, get_state, DwarfInstructionDecoder, execute, step, opcode_of, set_at,
  copy_from_cie, set_from_uleb128, set_from_sleb128, set_mark, times, code_offset, code_val_offset,
  code_undefined, code_same_value, code_register, code_val_expression, code_expression,
}

-- The run keeps the remembered states, if it returns.
unfoldable Keeps : List DwarfState → Result DwarfInstructionDecoder → Type 0
Keeps stack (ok d) = d.remembered_state ≡ stack
Keeps stack (fail e) = Unit {0}

Keeps-bind {ℓ} :
    {A : Type ℓ} (stack : List DwarfState) (m : Result A) (f : A → Result DwarfInstructionDecoder)
    → ((a : A) → Keeps stack (f a))
    → Keeps stack (m >>= f)
unfolding Keeps
Keeps-bind stack (ok a) f h = h a
Keeps-bind stack (fail e) f h = tt

Keeps-ok :
    {stack : List DwarfState} (d : DwarfInstructionDecoder)
    → d.remembered_state ≡ stack
    → Keeps stack (ok d)
unfolding Keeps
Keeps-ok d h = h

Keeps-chain :
    (stack : List DwarfState) (m : Result DwarfInstructionDecoder)
    (f : DwarfInstructionDecoder → Result DwarfInstructionDecoder)
    → Keeps stack m
    → ((d : DwarfInstructionDecoder) → d.remembered_state ≡ stack → Keeps stack (f d))
    → Keeps stack (m >>= f)
unfolding Keeps
Keeps-chain stack (ok d) f h k = k d h
Keeps-chain stack (fail e) f h k = tt

abbrev pub IsOther : CfaOpcode → Type 0
IsOther o = (o ≢ remember_state) × (o ≢ restore_state)

module _ (m : Memory) (fuel : ℕ) (cie : DwarfCie) (stop : DwarfCursor) where
  Keeps-set_at :
      (reg kind ofs : ℕ) (c : DwarfCursor) (d : DwarfInstructionDecoder)
      → Keeps d.remembered_state (set_at reg kind ofs c d)
  Keeps-set_at reg kind ofs c d = Keeps-bind d.remembered_state _ _ (λ s. Keeps-ok _ refl)

  Keeps-copy_from_cie :
      (reg : ℕ) (c : DwarfCursor) (d : DwarfInstructionDecoder)
      → Keeps d.remembered_state (copy_from_cie cie reg c d)
  Keeps-copy_from_cie reg c d = Keeps-bind d.remembered_state (get_state cie) _ (λ s.
      Keeps-bind _ (get_register reg s) _
        (λ v. Keeps-bind _ (set_register reg v d.state) _ (λ s'. Keeps-ok _ refl)))

  Keeps-set_from_uleb128 :
      (kind factor : ℕ) (d : DwarfInstructionDecoder)
      → Keeps d.remembered_state (set_from_uleb128 m kind factor d)
  Keeps-set_from_uleb128 kind factor d =
      Keeps-bind d.remembered_state (next_uleb128 m d.start) _ (λ (reg, c).
        Keeps-bind d.remembered_state (next_uleb128 m c) _
          (λ (v, c'). Keeps-set_at reg kind (times v factor) c' d))

  Keeps-set_from_sleb128 :
      (kind factor : ℕ) (d : DwarfInstructionDecoder)
      → Keeps d.remembered_state (set_from_sleb128 m kind factor d)
  Keeps-set_from_sleb128 kind factor d =
      Keeps-bind d.remembered_state (next_uleb128 m d.start) _ (λ (reg, c).
        Keeps-bind d.remembered_state (next_sleb128 m c) _
          (λ (v, c'). Keeps-set_at reg kind (times v factor) c' d))

  Keeps-set_mark :
      (kind : ℕ) (d : DwarfInstructionDecoder) → Keeps d.remembered_state (set_mark m kind d)
  Keeps-set_mark kind d =
      Keeps-bind d.remembered_state (next_uleb128 m d.start) _
        (λ (reg, c). Keeps-set_at reg kind 0 c d)

  -- Every instruction but two leaves the stack alone.
  Keeps-execute :
      (op : ℕ) (o : CfaOpcode) (d : DwarfInstructionDecoder)
      → IsOther o
      → Keeps d.remembered_state (execute m fuel cie stop op o d)
  unfolding execute
  Keeps-execute op advance_loc d other = Keeps-ok _ refl
  Keeps-execute op dw_offset d other =
      Keeps-bind d.remembered_state (next_uleb128 m d.start) _
        (λ (v, c). Keeps-set_at op code_offset _ c d)
  Keeps-execute op restore d other = Keeps-copy_from_cie op d.start d
  Keeps-execute op nop d other = Keeps-ok _ refl
  Keeps-execute op set_loc d other = Keeps-bind d.remembered_state (get_augmentation cie) _ (λ a.
      Keeps-bind d.remembered_state (next_encoded_pointer m a.code_enc d.start) _
        (λ v. Keeps-ok _ refl))
  Keeps-execute op advance_loc1 d other = Keeps-ok _ refl
  Keeps-execute op advance_loc2 d other = Keeps-ok _ refl
  Keeps-execute op advance_loc4 d other = Keeps-ok _ refl
  Keeps-execute op offset_extended d other = Keeps-set_from_uleb128 code_offset _ d
  Keeps-execute op restore_extended d other =
      Keeps-bind d.remembered_state (next_uleb128 m d.start) _
        (λ (reg, c). Keeps-copy_from_cie reg c d)
  Keeps-execute op undefined d other = Keeps-set_mark code_undefined d
  Keeps-execute op same_value d other = Keeps-set_mark code_same_value d
  Keeps-execute op register d other = Keeps-set_from_uleb128 code_register 1 d
  Keeps-execute op remember_state d (other, _) = absurd (other refl)
  Keeps-execute op restore_state d (_, other) = absurd (other refl)
  Keeps-execute op def_cfa d other =
      Keeps-bind d.remembered_state (next_uleb128 m d.start) _
        (λ a. Keeps-bind d.remembered_state (next_uleb128 m a.1) _ (λ v. Keeps-ok _ refl))
  Keeps-execute op def_cfa_register d other =
      Keeps-bind d.remembered_state (next_uleb128 m d.start) _ (λ a. Keeps-ok _ refl)
  Keeps-execute op def_cfa_offset d other =
      Keeps-bind d.remembered_state (next_uleb128 m d.start) _ (λ a. Keeps-ok _ refl)
  Keeps-execute op def_cfa_expression d other =
      Keeps-bind d.remembered_state (decode m d.state fuel d.start) _
        (λ ignored. Keeps-bind d.remembered_state (next_uleb128 m d.start) _ (λ a. Keeps-ok _ refl))
  Keeps-execute op expression d other =
      Keeps-bind d.remembered_state (next_uleb128 m d.start) _ (λ (reg, c).
        Keeps-chain d.remembered_state (set_at reg code_expression c.cursor c d)
          (λ d'. decode m d'.state fuel c >>= λ ignored.
            next_uleb128 m c >>= λ (ul, c'). ok (record d' { start = skip ul c' }))
          (Keeps-set_at reg code_expression c.cursor c d)
          (λ d' e.
            Keeps-bind _ (decode m d'.state fuel c) _
              (λ ignored. Keeps-bind _ (next_uleb128 m c) _ (λ (ul, c'). Keeps-ok _ e))))
  Keeps-execute op offset_extended_sf d other = Keeps-set_from_sleb128 code_offset _ d
  Keeps-execute op def_cfa_sf d other =
      Keeps-bind d.remembered_state (next_uleb128 m d.start) _
        (λ a. Keeps-bind d.remembered_state (next_sleb128 m a.1) _ (λ v. Keeps-ok _ refl))
  Keeps-execute op def_cfa_offset_sf d other =
      Keeps-bind d.remembered_state (next_sleb128 m d.start) _ (λ a. Keeps-ok _ refl)
  Keeps-execute op val_offset d other = Keeps-set_from_uleb128 code_val_offset _ d
  Keeps-execute op val_offset_sf d other = Keeps-set_from_sleb128 code_val_offset _ d
  Keeps-execute op val_expression d other =
      Keeps-bind d.remembered_state (next_uleb128 m d.start) _ (λ (reg, c).
        Keeps-bind d.remembered_state (decode m d.state fuel c) _ (λ ignored.
          Keeps-bind d.remembered_state (next_uleb128 m c) _ (λ (ul, c').
            Keeps-bind d.remembered_state (get_register reg d.state) _
              (λ v. Keeps-set_at reg code_val_expression _ (skip ul c') d))))
  Keeps-execute op mips_advance_loc8 d other = Keeps-ok _ refl
  Keeps-execute op gnu_window_save d other = Keeps-ok _ refl
  Keeps-execute op gnu_args_size d other =
      Keeps-bind d.remembered_state (next_uleb128 m d.start) _ (λ a. Keeps-ok _ refl)
  Keeps-execute op gnu_negative_offset_extended d other =
      Keeps-bind d.remembered_state (next_uleb128 m d.start) _ (λ (reg, c).
        Keeps-bind d.remembered_state (next_uleb128 m c) _
          (λ (v, c'). Keeps-set_at reg code_offset _ c' d))
  Keeps-execute op user_defined d other = Keeps-ok _ refl

  -- The instruction that a decoder reads next.
  abbrev pub opcode_at : DwarfInstructionDecoder → CfaOpcode
  opcode_at d = let (byte, c) = next m 1 d.start in opcode_of byte

  -- Steps between which every remembered state is restored: the properly nested programs.
  pub data Balanced : DwarfInstructionDecoder → DwarfInstructionDecoder → Type 0 where
    done : {d : DwarfInstructionDecoder} → Balanced d d
    plain :
        {d d' e : DwarfInstructionDecoder}
        → IsOther (opcode_at d)
        → step m fuel cie stop d ≡ ok d'
        → Balanced d' e
        → Balanced d e
    nested :
        {d d1 d2 d3 e : DwarfInstructionDecoder}
        → opcode_at d ≡ remember_state
        → step m fuel cie stop d ≡ ok d1
        → Balanced d1 d2
        → opcode_at d2 ≡ restore_state
        → step m fuel cie stop d2 ≡ ok d3
        → Balanced d3 e
        → Balanced d e

  step-other :
      (d d' : DwarfInstructionDecoder)
      → IsOther (opcode_at d)
      → step m fuel cie stop d ≡ ok d'
      → d'.remembered_state ≡ d.remembered_state
  unfolding Keeps step
  step-other d d' other e =
      let (byte, c) = next m 1 d.start in
      subst (Keeps d.remembered_state) e
        (Keeps-execute (byte % 64) (opcode_of byte) (record d { start = c }) other)

  abbrev remembered_of : List DwarfState → Result DwarfInstructionDecoder → List DwarfState
  remembered_of l (ok d) = d.remembered_state
  remembered_of l (fail e) = l

  abbrev state_of : DwarfState → Result DwarfInstructionDecoder → DwarfState
  state_of s (ok d) = d.state
  state_of s (fail e) = s

  restored :
      (d : DwarfInstructionDecoder) (s : DwarfState) (rest : List DwarfState)
      → d.remembered_state ≡ s ∷ rest
      → (op : ℕ)
      → ok (record d { state = s; remembered_state = rest })
        ≡ execute m fuel cie stop op restore_state d
  unfolding execute
  restored d s rest e op = rw e refl

  step-remember :
      (d d' : DwarfInstructionDecoder)
      → opcode_at d ≡ remember_state
      → step m fuel cie stop d ≡ ok d'
      → d'.remembered_state ≡ d.state ∷ d.remembered_state
  unfolding step execute
  step-remember d d' at e =
      let (byte, c) = next m 1 d.start in
      ap (remembered_of []) (
        sym (ap (λ o. execute m fuel cie stop (byte % 64) o (record d { start = c })) (sym at) ∙ e))

  step-restore :
      (d d' : DwarfInstructionDecoder) (s : DwarfState) (rest : List DwarfState)
      → opcode_at d ≡ restore_state
      → d.remembered_state ≡ s ∷ rest
      → step m fuel cie stop d ≡ ok d'
      → (d'.state ≡ s) × (d'.remembered_state ≡ rest)
  unfolding step execute
  step-restore d d' s rest at e f =
      let (byte, c) = next m 1 d.start in
      let returned : ok (record d { start = c; state = s; remembered_state = rest }) ≡ ok d' =
        restored (record d { start = c }) s rest e (byte % 64)
        ∙ ap (λ o. execute m fuel cie stop (byte % 64) o (record d { start = c })) (sym at)
        ∙ f in
      (ap (state_of s) (sym returned), ap (remembered_of []) (sym returned))

  Balanced-remembered :
      {d e : DwarfInstructionDecoder} → Balanced d e → e.remembered_state ≡ d.remembered_state
  Balanced-remembered done = refl
  Balanced-remembered (plain {d} {d'} o s b) = Balanced-remembered b ∙ step-other d d' o s
  Balanced-remembered (nested {d} {d1} {d2} {d3} at s b at' s' b') =
      let inner = Balanced-remembered b ∙ step-remember d d1 at s in
      Balanced-remembered b' ∙ (step-restore d2 d3 d.state d.remembered_state at' inner s').1

  -- The instruction remember_state, a properly nested program and the instruction restore_state
  -- leave the registers and the frame address as they were, and the stack too.
  pub restore-remember :
      (d d1 d2 d3 : DwarfInstructionDecoder)
      → opcode_at d ≡ remember_state
      → step m fuel cie stop d ≡ ok d1
      → Balanced d1 d2
      → opcode_at d2 ≡ restore_state
      → step m fuel cie stop d2 ≡ ok d3
      → (d3.state ≡ d.state) × (d3.remembered_state ≡ d.remembered_state)
  restore-remember d d1 d2 d3 at s b at' s' =
      step-restore d2 d3 d.state d.remembered_state at'
        (Balanced-remembered b ∙ step-remember d d1 at s) s'
