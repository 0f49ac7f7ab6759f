-- ===== src/KissVm/Parser/Tests.antt =====
-- A run of src/kissvm/Parser.cpp.
use kiss_vm_interpreter.Prelude.{◌≡◌, refl, [], ◌∷◌, Bytes, codes, arith}
use kiss_vm_interpreter.KissVm.Token.{TokenType, Token}
use kiss_vm_interpreter.KissVm.Scan.{ok}
use kiss_vm_interpreter.KissVm.Parser.{parse_expr}
use kiss_vm_interpreter.KissVm.Parser.Grammar.{
  Phrase, literal, enclosed, binary, IsPhrase, in_front, tree,
}
use kiss_vm_interpreter.KissVm.Parser.Trees.{parse_expr-tree}

abbrev at_start : TokenType → Bytes → Token
at_start k v = record { type = k; value = v; line = 1; col = 1 }

abbrev digit : Bytes → Phrase
digit v = literal (at_start TokenType.number_literal v)

-- 1 - 2 * (3 - 4) - 5
abbrev difference : Phrase
difference =
    binary (at_start TokenType.minus (codes "-"))
      (binary (at_start TokenType.minus (codes "-")) (digit (codes "1")) (
        binary (at_start TokenType.multiply (codes "*")) (digit (codes "2")) (
          enclosed (at_start TokenType.lparen (codes "("))
            (binary (at_start TokenType.minus (codes "-")) (digit (codes "3")) (digit (codes "4")))
            (at_start TokenType.rparen (codes ")")))))
      (digit (codes "5"))

difference-IsPhrase : IsPhrase difference
difference-IsPhrase = (
  omega arith,
  omega arith,
  omega arith,
  (
    omega arith,
    omega arith,
    omega arith,
    refl,
    (
      omega arith,
      omega arith,
      omega arith,
      refl,
      (refl, refl, (omega arith, omega arith, omega arith, refl, refl)),
    ),
  ),
  refl,
)

parse_expr-tree_example :
    parse_expr (in_front difference (at_start TokenType.end_of_script [] ∷ []))
    ≡ ok (tree difference, at_start TokenType.end_of_script [] ∷ [])
parse_expr-tree_example =
    parse_expr-tree difference (at_start TokenType.end_of_script [] ∷ []) difference-IsPhrase
      (omega arith)
