-- ===== src/Snapshot/Ops.antt =====
-- src/snapshot.rs: operators, written as their discriminants.
use kryhtajs.Prelude.{
  ℕ, ◌≡◌, ◌++◌, arith, ascii, decimal, message, ok, ◌==◌, if◌then◌else◌, nat_key,
}
use kryhtajs.Snapshot.Bytes.{Bytes, Reader, ◌>>=◌, pure, fail, u8, read_u8}
use kryhtajs.Snapshot.Words.{u8_lem}
use kryhtajs.Ast.{BinaryOp, UnaryOp}

-- `op as u8`
abbrev binary_op_tag : BinaryOp → ℕ
binary_op_tag BinaryOp.add = 0
binary_op_tag BinaryOp.sub = 1
binary_op_tag BinaryOp.mul = 2
binary_op_tag BinaryOp.div = 3
binary_op_tag BinaryOp.modulo = 4
binary_op_tag BinaryOp.pow = 5
binary_op_tag BinaryOp.eq = 6
binary_op_tag BinaryOp.ne = 7
binary_op_tag BinaryOp.lt = 8
binary_op_tag BinaryOp.le = 9
binary_op_tag BinaryOp.gt = 10
binary_op_tag BinaryOp.ge = 11
binary_op_tag BinaryOp.and = 12
binary_op_tag BinaryOp.or = 13
binary_op_tag BinaryOp.bit_and = 14
binary_op_tag BinaryOp.bit_or = 15
binary_op_tag BinaryOp.bit_xor = 16
binary_op_tag BinaryOp.shl = 17
binary_op_tag BinaryOp.shr = 18
binary_op_tag BinaryOp.u_shr = 19
binary_op_tag BinaryOp.nullish_coalesce = 20

unfoldable pub write_binary_op : BinaryOp → Bytes
write_binary_op op = u8 (binary_op_tag op)

unfoldable binary_op_of_tag : ℕ → Reader BinaryOp
binary_op_of_tag tag =
    if tag == 0
    then pure BinaryOp.add
    else if tag == 1
    then pure BinaryOp.sub
    else if tag == 2
    then pure BinaryOp.mul
    else if tag == 3
    then pure BinaryOp.div
    else if tag == 4
    then pure BinaryOp.modulo
    else if tag == 5
    then pure BinaryOp.pow
    else if tag == 6
    then pure BinaryOp.eq
    else if tag == 7
    then pure BinaryOp.ne
    else if tag == 8
    then pure BinaryOp.lt
    else if tag == 9
    then pure BinaryOp.le
    else if tag == 10
    then pure BinaryOp.gt
    else if tag == 11
    then pure BinaryOp.ge
    else if tag == 12
    then pure BinaryOp.and
    else if tag == 13
    then pure BinaryOp.or
    else if tag == 14
    then pure BinaryOp.bit_and
    else if tag == 15
    then pure BinaryOp.bit_or
    else if tag == 16
    then pure BinaryOp.bit_xor
    else if tag == 17
    then pure BinaryOp.shl
    else if tag == 18
    then pure BinaryOp.shr
    else if tag == 19
    then pure BinaryOp.u_shr
    else if tag == 20
    then pure BinaryOp.nullish_coalesce
    else fail (message (ascii "snapshot: bad binary op tag " ++ decimal tag))

unfoldable pub read_binary_op : Reader BinaryOp
unfolding binary_op_of_tag
read_binary_op = do tag ← read_u8; binary_op_of_tag tag

pub binary_op_lem :
    (op : BinaryOp) (rest : Bytes) → read_binary_op (write_binary_op op ++ rest) ≡ ok (op, rest)
unfolding write_binary_op read_binary_op
binary_op_lem BinaryOp.add rest = simp (u8_lem 0 (omega arith))
binary_op_lem BinaryOp.sub rest = simp (u8_lem 1 (omega arith))
binary_op_lem BinaryOp.mul rest = simp (u8_lem 2 (omega arith))
binary_op_lem BinaryOp.div rest = simp (u8_lem 3 (omega arith))
binary_op_lem BinaryOp.modulo rest = simp (u8_lem 4 (omega arith))
binary_op_lem BinaryOp.pow rest = simp (u8_lem 5 (omega arith))
binary_op_lem BinaryOp.eq rest = simp (u8_lem 6 (omega arith))
binary_op_lem BinaryOp.ne rest = simp (u8_lem 7 (omega arith))
binary_op_lem BinaryOp.lt rest = simp (u8_lem 8 (omega arith))
binary_op_lem BinaryOp.le rest = simp (u8_lem 9 (omega arith))
binary_op_lem BinaryOp.gt rest = simp (u8_lem 10 (omega arith))
binary_op_lem BinaryOp.ge rest = simp (u8_lem 11 (omega arith))
binary_op_lem BinaryOp.and rest = simp (u8_lem 12 (omega arith))
binary_op_lem BinaryOp.or rest = simp (u8_lem 13 (omega arith))
binary_op_lem BinaryOp.bit_and rest = simp (u8_lem 14 (omega arith))
binary_op_lem BinaryOp.bit_or rest = simp (u8_lem 15 (omega arith))
binary_op_lem BinaryOp.bit_xor rest = simp (u8_lem 16 (omega arith))
binary_op_lem BinaryOp.shl rest = simp (u8_lem 17 (omega arith))
binary_op_lem BinaryOp.shr rest = simp (u8_lem 18 (omega arith))
binary_op_lem BinaryOp.u_shr rest = simp (u8_lem 19 (omega arith))
binary_op_lem BinaryOp.nullish_coalesce rest = simp (u8_lem 20 (omega arith))

-- `op as u8`
abbrev unary_op_tag : UnaryOp → ℕ
unary_op_tag UnaryOp.neg = 0
unary_op_tag UnaryOp.not = 1
unary_op_tag UnaryOp.bit_not = 2
unary_op_tag UnaryOp.type_of = 3
unary_op_tag UnaryOp.plus = 4
unary_op_tag UnaryOp.pre_inc = 5
unary_op_tag UnaryOp.pre_dec = 6
unary_op_tag UnaryOp.post_inc = 7
unary_op_tag UnaryOp.post_dec = 8

unfoldable pub write_unary_op : UnaryOp → Bytes
write_unary_op op = u8 (unary_op_tag op)

unfoldable unary_op_of_tag : ℕ → Reader UnaryOp
unary_op_of_tag tag =
    if tag == 0
    then pure UnaryOp.neg
    else if tag == 1
    then pure UnaryOp.not
    else if tag == 2
    then pure UnaryOp.bit_not
    else if tag == 3
    then pure UnaryOp.type_of
    else if tag == 4
    then pure UnaryOp.plus
    else if tag == 5
    then pure UnaryOp.pre_inc
    else if tag == 6
    then pure UnaryOp.pre_dec
    else if tag == 7
    then pure UnaryOp.post_inc
    else if tag == 8
    then pure UnaryOp.post_dec
    else fail (message (ascii "snapshot: bad unary op tag " ++ decimal tag))

unfoldable pub read_unary_op : Reader UnaryOp
unfolding unary_op_of_tag
read_unary_op = do tag ← read_u8; unary_op_of_tag tag

pub unary_op_lem :
    (op : UnaryOp) (rest : Bytes) → read_unary_op (write_unary_op op ++ rest) ≡ ok (op, rest)
unfolding write_unary_op read_unary_op
unary_op_lem UnaryOp.neg rest = simp (u8_lem 0 (omega arith))
unary_op_lem UnaryOp.not rest = simp (u8_lem 1 (omega arith))
unary_op_lem UnaryOp.bit_not rest = simp (u8_lem 2 (omega arith))
unary_op_lem UnaryOp.type_of rest = simp (u8_lem 3 (omega arith))
unary_op_lem UnaryOp.plus rest = simp (u8_lem 4 (omega arith))
unary_op_lem UnaryOp.pre_inc rest = simp (u8_lem 5 (omega arith))
unary_op_lem UnaryOp.pre_dec rest = simp (u8_lem 6 (omega arith))
unary_op_lem UnaryOp.post_inc rest = simp (u8_lem 7 (omega arith))
unary_op_lem UnaryOp.post_dec rest = simp (u8_lem 8 (omega arith))
