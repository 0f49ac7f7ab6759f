-- ===== src/Lib.antt =====
-- Minima core (src/): models of its C++ code and proofs about them.
--
-- The program runs KISS VM scripts, the contracts that lock a coin. The script's text is cut into
-- tokens, the tokens are parsed into a tree, and the interpreter walks the tree with a counter of
-- instructions; the contract sets the variables that a script can read of its transaction, runs the
-- script and keeps the verdict. EXEC and MAST run another text inside the same run. Apart from the
-- scripts stand the wire format of all objects, the pool of transactions that wait for a block and the
-- Merkle mountain range that commits to the coins.
--
--   Prelude         Boolean tests, lists and byte strings that the models share; Prelude/Text has
--                   the classification of characters (isspace, isdigit, isalnum, isxdigit, toupper).
--   KissVm.Token    src/kissvm/Token.hpp, Token.cpp: TokenType and Token, with the errors that the
--                   tokenizer and the parser throw. Tokens keep line and column.
--   KissVm.Scan     results of the two: a value, an exception, or the end of the model's fuel.
--   KissVm.Tokenizer    src/kissvm/Tokenizer.cpp. The cursor is a record of the characters left, the
--                   line and the column, where the class has pos_, line_ and col_.
--   KissVm.Node, KissVm.Parser    src/kissvm/Parser.hpp, Parser.cpp. A method becomes a function from
--                   the tokens left; Parser has the expressions, Parser/Statements the statements.
--   KissVm.Value, KissVm.Environment    src/kissvm/Value.hpp, Value.cpp, Environment.hpp. A map
--                   is an association list.
--   KissVm.Interpreter    src/kissvm/Interpreter.cpp: the counter and the outcome of a step, with
--                   Eval for evalNode and the operators and Exec for the statements. ReturnSignal
--                   and the exceptions are outcomes that pass the rest of the run by.
--   KissVm.Contract    src/kissvm/Contract.cpp: setupEnvironment and execute.
--   KissVm.Numbers    class MiniNumber as the numbers of the VM.
--   KissVm.Functions    src/kissvm/functions/Functions.cpp: the registry and the built-in functions, in
--                   Strings, Bits, Convert, Math, Coins and Signatures. A function is one of the
--                   arguments, the environment and what it reads of the transaction and the witness.
--   BigInt          class BigInt of src/types/MiniNumber.cpp: Mag has the loops over magnitudes,
--                   Signed the operators, Decimal the text. A loop from the last byte to the first
--                   runs over the reversed bytes. BigInt/Integer has the integer that the bytes
--                   stand for in two's complement.
--   MiniNumber      class MiniNumber of src/types/MiniNumber.cpp: an unscaled BigInt and a scale, an
--                   int whose overflow wraps to 32 bits (Prelude/Int: int_of). Text has the constructor from a string and toString(),
--                   Derived the operations made of others, Wire the wire format.
--   Serialization   src/serialization/DataStream.cpp, the wire format: writing appends to the bytes
--                   of a buffer, and a Reader is the bytes that are left with the position. A sum
--                   of shifted bytes stands for their bitwise or, which is the same below 256.
--   MiniData        src/types/MiniData.cpp: padding, order and wire format of byte strings. A read
--                   past the end of a buffer is an outcome of its own.
--   Mempool         src/mempool/Mempool.hpp. The map and the set are lists, in the order of their
--                   insertion, which C++ leaves open; a TxPoW is its id and the coins it spends. The
--                   front of an empty queue, which C++ leaves undefined, is an absent result.
--   Mmr             src/mmr/MMRSet.cpp and MMRProof.cpp: the range as a map from row and entry to a
--                   node, and its proofs. MMRData::combine is a parameter, so that no hash function
--                   is modelled; the sort of the peaks is by insertion. Mmr/Wire has the serialisation
--                   of a proof, over the wire format of a node.
--   KissVm.Shape    what a tree of the parser looks like, which the interpreter relies on.
--
-- A module named for a property (Tokenizer/Proper, Total, Pieces and Spaced, Parser/Total, Grammar, Precedence, Phrases and
-- Trees, Interpreter/Fine,
-- Limit, Pure, Termination, Guarantees, Functions/RoundTrip, Functions/Sums, Functions/SameState, Functions/SetBits,
-- BigInt/Value, Sum, Product, Compare, SearchDigit, Quotient, Integer, SignMag, Signs,
-- Refinement, Operators, Printed, Digits, MiniNumber/Scaled, Room, Leading, Shows, Context, Arithmetic,
-- Given, Total, Quotients, Longs, Rounds, Serialization/RoundTrip, MiniData/RoundTrip, Mempool/Spent,
-- Mempool/Admission, Mempool/Removal, Mmr/Climb, Mmr/Bagging, Mmr/Root, Mmr/Wire) has the proofs; a module Tests
-- has the runs of its component.
--
-- Fuel. The tokenizer gets one unit per character and one more; each round takes a character or
-- ends. The parser gets one unit per token and one more, spent where a statement or a parenthesis
-- nests. A run of a script gets 1025, spent on each level of EXEC and each round of WHILE, which
-- cost an instruction each and so end with the limit of 1024. The way up a range gets two units
-- more than its highest row, since a sibling stands in a row that exists. The search for a digit
-- of a quotient gets eight rounds, for 256 digits, and the text of a magnitude three rounds for
-- each byte, and one more; an int64_t has eight bytes. The exponent of pow() gets 31 rounds, the
-- bits of an int. The 200 rounds of sqrt() are the source's. For the tokenizer, the parser, the
-- runs, getProof(), quotients, texts and pow() the fuel is proved to be enough.
--
-- Parameters. The interpreter is over interfaces to the numbers, the record Numbers, with
-- comparison, arithmetic that can throw, and decimal text, and to the function registry, the
-- record Builtins; KissVm.Numbers and KissVm/Functions/Registry fill them. A call of the registry
-- returns a value, throws, or does not end in a defined way, which PROOF and SAMESTATE can do. The
-- registry takes SHA-2, SHA-3, the RSA check (none in a build without OpenSSL), SIGDIG and PROOF as
-- functions, and the length of byte string that SETLEN can get memory for.
--
-- Not modelled: floating point (getAsDouble, SIGDIG); the end of memory but for SETLEN; texts of
-- 2 ^ 31 digits, whose count is an int; the serialisation
-- of ranges; the width of the ints that count lines and columns, the depth of the native stack,
-- the text of the messages of exceptions and the trace, the debug names of tokens. An access of
-- children[i] past the end, which C++ leaves undefined, is an error of its own in the model, as
-- is std::stoul on characters that it does not take.
pub mod Prelude
pub mod BigInt
pub mod KissVm
pub mod Mempool
pub mod MiniData
pub mod MiniNumber
pub mod Mmr
pub mod Serialization
