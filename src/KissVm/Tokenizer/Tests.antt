-- ===== src/KissVm/Tokenizer/Tests.antt =====
-- A run of src/kissvm/Tokenizer.cpp.
use kiss_vm_interpreter.Prelude.{refl, List, [], ◌∷◌, codes, is_digit, is_alpha, is_alnum}
use kiss_vm_interpreter.KissVm.Token.{TokenType}
use kiss_vm_interpreter.KissVm.Tokenizer.{tokenize, in_word, in_number, starts_word}
use kiss_vm_interpreter.KissVm.Tokenizer.Pieces.{Piece, sign, word, number, ArePieces, Tells}
use kiss_vm_interpreter.KissVm.Tokenizer.Spaced.{tokenize-Tells}

abbrev assignment : List Piece
assignment =
    word b'L' (codes "ET") ∷ word b'x' [] ∷ sign TokenType.assign ∷ number b'3' (codes ".5") ∷ []

assignment-ArePieces : ArePieces assignment
unfolding starts_word in_word is_alnum is_alpha in_number is_digit
assignment-ArePieces =
    ((refl, (refl, (refl, tt))), ((refl, tt), ((λ e. cc), ((refl, (refl, (refl, tt))), tt))))

tokenize-Tells_example : Tells assignment (tokenize (codes "LET x = 3.5 "))
tokenize-Tells_example = tokenize-Tells assignment assignment-ArePieces
