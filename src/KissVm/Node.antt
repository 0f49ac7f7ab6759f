-- ===== src/KissVm/Node.antt =====
-- src/kissvm/Parser.hpp: the syntax tree. A node's children are a list of nodes.
use kiss_vm_interpreter.Prelude.{Bool, false, Bytes, []}
use kiss_vm_interpreter.KissVm.Token.{Token}

-- enum class NodeKind
pub data NodeKind : Type 0 where
  program let_stmt if_stmt while_stmt return_stmt assert_stmt exec_stmt mast_stmt : NodeKind
  expr_stmt bool_lit num_lit hex_lit str_lit var binary unary call : NodeKind

-- struct Node: kind, tok, children, name, bval
mutual
  pub data Node : Type 0 where
    node : NodeKind → Token → Nodes → Bytes → Bool → Node

  pub data Nodes : Type 0 where
    nil : Nodes
    cons : Node → Nodes → Nodes

-- makeNode(), with the children that are pushed next.
abbrev pub make_node : NodeKind → Token → Nodes → Node
make_node k t cs = node k t cs [] false
