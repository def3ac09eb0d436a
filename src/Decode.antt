-- ===== src/Decode.antt =====
-- riscv-isa-sim/riscv/decode.h, class insn_t: the fields and immediates of an instruction word `b`.
use cmpe220fall.Base.{ℕ, ◌-◌, bit_and, ltb, if◌then◌else◌}
use cmpe220fall.Base.Word.{add64, sub64, shl64, shr64, sra64}

-- The length in bytes that the low bits announce.
unfoldable pub insn_length : ℕ → ℕ
insn_length b =
    if ltb (bit_and b 0x03) 0x03
    then 2
    else if ltb (bit_and b 0x1f) 0x1f
    then 4
    else if ltb (bit_and b 0x3f) 0x3f
    then 6
    else 8

-- `x(lo, len)`: an unsigned field. `xs(lo, len)`: a sign-extended one.
unfoldable pub x : ℕ → ℕ → ℕ → ℕ
x b lo len = bit_and (shr64 b lo) (sub64 (shl64 1 len) 1)

unfoldable pub xs : ℕ → ℕ → ℕ → ℕ
xs b lo len = sra64 (shl64 b (64 - lo - len)) (64 - len)

unfoldable pub imm_sign : ℕ → ℕ
unfolding xs
imm_sign b = xs b 63 1

module _ (b : ℕ) where
  unfoldable pub rd : ℕ
  unfolding x
  rd = x b 7 5

  unfoldable pub rs1 : ℕ
  unfolding x
  rs1 = x b 15 5

  unfoldable pub rs2 : ℕ
  unfolding x
  rs2 = x b 20 5

  unfoldable pub rs3 : ℕ
  unfolding x
  rs3 = x b 27 5

  unfoldable pub rm : ℕ
  unfolding x
  rm = x b 12 3

  unfoldable pub csr : ℕ
  unfolding x
  csr = x b 20 12

  unfoldable pub i_imm : ℕ
  i_imm = sra64 b 20

  unfoldable pub s_imm : ℕ
  unfolding x xs
  s_imm = add64 (x b 7 5) (shl64 (xs b 25 7) 5)

  unfoldable pub sb_imm : ℕ
  unfolding x imm_sign
  sb_imm =
      add64 (add64 (add64 (shl64 (x b 8 4) 1) (shl64 (x b 25 6) 5)) (shl64 (x b 7 1) 11))
        (shl64 (imm_sign b) 12)

  unfoldable pub u_imm : ℕ
  u_imm = shl64 (sra64 b 12) 12

  unfoldable pub uj_imm : ℕ
  unfolding x imm_sign
  uj_imm =
      add64 (add64 (add64 (shl64 (x b 21 10) 1) (shl64 (x b 20 1) 11)) (shl64 (x b 12 8) 12))
        (shl64 (imm_sign b) 20)

  -- The compressed formats.
  unfoldable pub rvc_imm : ℕ
  unfolding x xs
  rvc_imm = add64 (x b 2 5) (shl64 (xs b 12 1) 5)

  unfoldable pub rvc_zimm : ℕ
  unfolding x
  rvc_zimm = add64 (x b 2 5) (shl64 (x b 12 1) 5)

  unfoldable pub rvc_addi4spn_imm : ℕ
  unfolding x
  rvc_addi4spn_imm =
      add64 (add64 (add64 (shl64 (x b 6 1) 2) (shl64 (x b 5 1) 3)) (shl64 (x b 11 2) 4))
        (shl64 (x b 7 4) 6)

  unfoldable pub rvc_addi16sp_imm : ℕ
  unfolding x xs
  rvc_addi16sp_imm =
      add64
        (add64 (add64 (add64 (shl64 (x b 6 1) 4) (shl64 (x b 2 1) 5)) (shl64 (x b 5 1) 6))
          (shl64 (x b 3 2) 7))
        (shl64 (xs b 12 1) 9)

  unfoldable pub rvc_lwsp_imm : ℕ
  unfolding x
  rvc_lwsp_imm = add64 (add64 (shl64 (x b 4 3) 2) (shl64 (x b 12 1) 5)) (shl64 (x b 2 2) 6)

  unfoldable pub rvc_ldsp_imm : ℕ
  unfolding x
  rvc_ldsp_imm = add64 (add64 (shl64 (x b 5 2) 3) (shl64 (x b 12 1) 5)) (shl64 (x b 2 3) 6)

  unfoldable pub rvc_swsp_imm : ℕ
  unfolding x
  rvc_swsp_imm = add64 (shl64 (x b 9 4) 2) (shl64 (x b 7 2) 6)

  unfoldable pub rvc_sdsp_imm : ℕ
  unfolding x
  rvc_sdsp_imm = add64 (shl64 (x b 10 3) 3) (shl64 (x b 7 3) 6)

  unfoldable pub rvc_lw_imm : ℕ
  unfolding x
  rvc_lw_imm = add64 (add64 (shl64 (x b 6 1) 2) (shl64 (x b 10 3) 3)) (shl64 (x b 5 1) 6)

  unfoldable pub rvc_ld_imm : ℕ
  unfolding x
  rvc_ld_imm = add64 (shl64 (x b 10 3) 3) (shl64 (x b 5 2) 6)

  unfoldable pub rvc_j_imm : ℕ
  unfolding x xs
  rvc_j_imm =
      add64
        (add64
          (add64
            (add64
              (add64 (add64 (add64 (shl64 (x b 3 3) 1) (shl64 (x b 11 1) 4)) (shl64 (x b 2 1) 5))
                (shl64 (x b 7 1) 6))
              (shl64 (x b 6 1) 7))
            (shl64 (x b 9 2) 8))
          (shl64 (x b 8 1) 10))
        (shl64 (xs b 12 1) 11)

  unfoldable pub rvc_b_imm : ℕ
  unfolding x xs
  rvc_b_imm =
      add64
        (add64 (add64 (add64 (shl64 (x b 3 2) 1) (shl64 (x b 10 2) 3)) (shl64 (x b 2 1) 5))
          (shl64 (x b 5 2) 6))
        (shl64 (xs b 12 1) 8)

  unfoldable pub rvc_simm3 : ℕ
  unfolding x
  rvc_simm3 = x b 10 3

  unfoldable pub rvc_rd : ℕ
  unfolding rd
  rvc_rd = rd

  unfoldable pub rvc_rs1 : ℕ
  unfolding rd
  rvc_rs1 = rd

  unfoldable pub rvc_rs2 : ℕ
  unfolding x
  rvc_rs2 = x b 2 5

  unfoldable pub rvc_rs1s : ℕ
  unfolding x
  rvc_rs1s = add64 8 (x b 7 3)

  unfoldable pub rvc_rs2s : ℕ
  unfolding x
  rvc_rs2s = add64 8 (x b 2 3)
