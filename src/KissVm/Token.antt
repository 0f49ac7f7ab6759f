-- ===== src/KissVm/Token.antt =====
-- src/kissvm/Token.hpp: tokens, and the errors that the stages of the VM raise.
use kiss_vm_interpreter.Prelude.{ℕ, Bool, ◌==◌, Bytes}

-- enum class TokenType
pub data TokenType : Type 0 where
  number_literal hex_literal string_literal boolean_literal : TokenType
  identifier keyword : TokenType
  plus minus multiply divide modulo : TokenType
  eq neq lt gt lte gte : TokenType
  and or not xor nand nor : TokenType
  lshift rshift amp pipe caret tilde : TokenType
  lparen rparen comma colon assign : TokenType
  end_of_script unknown : TokenType

-- The value that the enumeration gives a constant.
abbrev pub index : TokenType → ℕ
index TokenType.number_literal = 0
index TokenType.hex_literal = 1
index TokenType.string_literal = 2
index TokenType.boolean_literal = 3
index TokenType.identifier = 4
index TokenType.keyword = 5
index TokenType.plus = 6
index TokenType.minus = 7
index TokenType.multiply = 8
index TokenType.divide = 9
index TokenType.modulo = 10
index TokenType.eq = 11
index TokenType.neq = 12
index TokenType.lt = 13
index TokenType.gt = 14
index TokenType.lte = 15
index TokenType.gte = 16
index TokenType.and = 17
index TokenType.or = 18
index TokenType.not = 19
index TokenType.xor = 20
index TokenType.nand = 21
index TokenType.nor = 22
index TokenType.lshift = 23
index TokenType.rshift = 24
index TokenType.amp = 25
index TokenType.pipe = 26
index TokenType.caret = 27
index TokenType.tilde = 28
index TokenType.lparen = 29
index TokenType.rparen = 30
index TokenType.comma = 31
index TokenType.colon = 32
index TokenType.assign = 33
index TokenType.end_of_script = 34
index TokenType.unknown = 35

-- operator== of two enumeration constants
abbrev pub is : TokenType → TokenType → Bool
is a b = index a == index b

-- struct Token
pub record Token : Type 0 where
  pub type : TokenType
  pub value : Bytes
  pub line : ℕ
  pub col : ℕ

-- One constructor for each throw of the tokenizer and the parser, with what its message shows.
pub data SyntaxError : Type 0 where
  unterminated_comment unterminated_string empty_hex : ℕ → ℕ → SyntaxError
  unexpected_character : ℕ → ℕ → ℕ → SyntaxError
  expected : Bytes → Token → SyntaxError
  unexpected_token : Token → SyntaxError
