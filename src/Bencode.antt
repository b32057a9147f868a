-- ===== src/Bencode.antt =====
-- BaseLibs/src/BenNode.cpp: the tree of a bencoded text, and the calls that build it. `m_pParent` is
-- never read. `m_pOperator` points to the last child or to its key value, if it is set.
pub mod Stream
pub mod Lookup
use benliud.Common.{
  ℕ, zero, suc, Bool, true, false, not, ◌&&◌, List, [], ◌∷◌, ◌++◌, ◌==◌, if◌then◌else◌,
}
use benliud.Common.Int.{ℤ, pos, negsuc}

-- `_NODETYPE`
pub data NodeType : Type 0 where
  be_null be_string be_int be_list be_dict be_dict_pair : NodeType

-- What `m_pOperator` points to: NULL, the last child, or the last child's key value.
pub data Operator : Type 0 where
  nothing last_child last_value : Operator

-- `CBenNode`: `m_nNodeType`, `m_nValue`, `m_sKey`, `m_sValue`, `m_KeyValue`, `m_pChild` and
-- `m_pOperator`. A `Slot` is a pointer that may be NULL, `Nodes` is the vector of children.
mutual
  pub data Node : Type 0 where
    node : NodeType → ℤ → List ℕ → List ℕ → Slot → Nodes → Operator → Node

  pub data Slot : Type 0 where
    empty : Slot
    full : Node → Slot

  pub data Nodes : Type 0 where
    nil : Nodes
    cons : Node → Nodes → Nodes

-- `CBenNode(parent, nt)`
unfoldable pub new : NodeType → Node
new nt = node nt (pos 0) [] [] empty nil nothing

-- `m_pChild.push_back(n)`
unfoldable pub push : Nodes → Node → Nodes
push nil n = cons n nil
push (cons c cs) n = cons c (push cs n)

-- `!m_pChild.empty() && m_pChild.back()->GetKeyValue() == NULL`
unfoldable pub back_waits : Nodes → Bool
back_waits nil = false
back_waits (cons (node nt v k s empty cs op) nil) = true
back_waits (cons (node nt v k s (full n) cs op) nil) = false
back_waits (cons c (cons d ds)) = back_waits (cons d ds)

-- `m_pChild.back()->SetKeyValue(n)`
unfoldable pub set_back_value : Nodes → Node → Nodes
set_back_value nil n = nil
set_back_value (cons (node nt v k s kv cs op) nil) n = cons (node nt v k s (full n) cs op) nil
set_back_value (cons c (cons d ds)) n = cons c (set_back_value (cons d ds) n)

-- `std::string(buf)`, for a buffer that ends with a zero: what stands before the first zero.
unfoldable pub c_string : List ℕ → List ℕ
c_string [] = []
c_string (c ∷ cs) = if c == 0 then [] else c ∷ c_string cs

-- `SetKey`, on a new pair: the node that `AddValue` makes of a key.
unfoldable pub new_pair : List ℕ → Node
new_pair key = node be_dict_pair (pos 0) (c_string key) [] empty nil nothing

-- The branches of `OpenDictionary` that act on this node.
unfoldable pub open_dictionary_here : Node → Node × Bool
open_dictionary_here (node be_null v k s kv cs op) = (node be_dict v k s kv cs op, true)
open_dictionary_here (node be_list v k s kv cs op) =
    (node be_list v k s kv (push cs (new be_dict)) last_child, true)
open_dictionary_here (node be_dict v k s kv cs op) =
    if back_waits cs
    then (node be_dict v k s kv (set_back_value cs (new be_dict)) last_value, true)
    else (node be_dict v k s kv cs op, false)
open_dictionary_here n = (n, false)

-- Those of `OpenList`. In a dictionary that waits for no value the list becomes a child.
unfoldable pub open_list_here : Node → Node × Bool
open_list_here (node be_null v k s kv cs op) = (node be_list v k s kv cs op, true)
open_list_here (node be_list v k s kv cs op) =
    (node be_list v k s kv (push cs (new be_list)) last_child, true)
open_list_here (node be_dict v k s kv cs op) =
    if back_waits cs
    then (node be_dict v k s kv (set_back_value cs (new be_list)) last_value, true)
    else (node be_dict v k s kv (push cs (new be_list)) last_child, true)
open_list_here n = (n, false)

-- Those of `CloseDictionary` and of `CloseList`: the node itself is to be closed.
unfoldable pub close_dictionary_here : Node → Node × Bool
close_dictionary_here (node be_dict v k s kv cs op) = (node be_dict v k s kv cs op, true)
close_dictionary_here n = (n, false)

unfoldable pub close_list_here : Node → Node × Bool
close_list_here (node be_list v k s kv cs op) = (node be_list v k s kv cs op, true)
close_list_here n = (n, false)

-- The integer and the string that `AddValue` makes.
unfoldable pub int_node : ℤ → Node
int_node value = node be_int value [] [] empty nil nothing

unfoldable pub text_node : List ℕ → Node
text_node value = node be_string (pos 0) [] value empty nil nothing

-- Those of `AddValue(llong)`.
unfoldable pub add_int_here : ℤ → Node → Node × Bool
add_int_here value (node be_null v k s kv cs op) = (node be_int value k s kv cs op, true)
add_int_here value (node be_int v k s kv cs op) = (node be_int value k s kv cs op, true)
add_int_here value (node be_list v k s kv cs op) =
    (node be_list v k s kv (push cs (int_node value)) op, true)
add_int_here value (node be_dict v k s kv cs op) =
    if back_waits cs
    then (node be_dict v k s kv (set_back_value cs (int_node value)) op, true)
    else (node be_dict v k s kv cs op, false)
add_int_here value n = (n, false)

-- Those of `AddValue(const char*, int)`. In a dictionary a string is a value or the next key.
unfoldable pub add_text_here : List ℕ → Node → Node × Bool
add_text_here value (node be_null v k s kv cs op) = (node be_string v k (s ++ value) kv cs op, true)
add_text_here value (node be_string v k s kv cs op) =
    (node be_string v k (s ++ value) kv cs op, true)
add_text_here value (node be_list v k s kv cs op) =
    (node be_list v k s kv (push cs (text_node value)) op, true)
add_text_here value (node be_dict v k s kv cs op) =
    if back_waits cs
    then (node be_dict v k s kv (set_back_value cs (text_node value)) op, true)
    else (node be_dict v k s kv (push cs (new_pair value)) op, true)
add_text_here value n = (n, false)

-- The five functions, which pass a call down in the same way.
pub data Action : Type 0 where
  open_dictionary open_list close_dictionary close_list : Action
  add_int : ℤ → Action
  add_text : List ℕ → Action

unfoldable pub act_here : Action → Node → Node × Bool
act_here open_dictionary n = open_dictionary_here n
act_here open_list n = open_list_here n
act_here close_dictionary n = close_dictionary_here n
act_here close_list n = close_list_here n
act_here (add_int value) n = add_int_here value n
act_here (add_text value) n = add_text_here value n

unfoldable pub closes : Action → Bool
closes close_dictionary = true
closes close_list = true
closes _ = false

-- Whether the call goes on to `m_pOperator`: in a list or a dictionary where that is set.
-- `OpenList` looks for a key that waits first.
unfoldable pub passes_on : Action → NodeType → Nodes → Operator → Bool
passes_on a be_list cs nothing = false
passes_on a be_list cs _ = true
passes_on a be_dict cs nothing = false
passes_on open_list be_dict cs _ = not (back_waits cs)
passes_on a be_dict cs _ = true
passes_on a _ cs op = false

-- `m_pOperator = NULL` after a closing call that succeeded, which then answers false.
unfoldable pub operator_after : Action → Bool → Operator → Operator
operator_after a ok op = if closes a && ok then nothing else op

-- The calls on a node, on the node that its `m_pOperator` points to among the children, and on a
-- key value.
unfoldable mutual
  pub act : Action → Node → Node × Bool
  act a (node nt v k s kv cs op) =
      let below = act_at a op cs in
      if passes_on a nt cs op
      then (node nt v k s kv below.0 (operator_after a below.1 op), not (closes a) && below.1)
      else act_here a (node nt v k s kv cs op)

  pub act_at : Action → Operator → Nodes → Nodes × Bool
  act_at a op nil = (nil, false)
  act_at a last_value (cons (node nt v k s kv cs op) nil) =
      let below = act_slot a kv in (cons (node nt v k s below.0 cs op) nil, below.1)
  act_at a op (cons c nil) = let below = act a c in (cons below.0 nil, below.1)
  act_at a op (cons c (cons d ds)) =
      let below = act_at a op (cons d ds) in (cons c below.0, below.1)

  pub act_slot : Action → Slot → Slot × Bool
  act_slot a empty = (empty, false)
  act_slot a (full n) = let below = act a n in (full below.0, below.1)
