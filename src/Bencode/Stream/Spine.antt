-- ===== src/Bencode/Stream/Spine.antt =====
-- The path from the root of a tree of BenNode.cpp to the node that a call acts on: the nodes that
-- `m_pOperator` leads through, and what a call does to them.
use benliud.Common.{
  ℕ, ◌≡◌, refl, ap, Bool, true, false, not, ◌&&◌, List, [], ◌∷◌, if◌then◌else◌, Bool-cases, inl,
  inr, arith,
}
use benliud.Common.Int.{ℤ, pos}
use benliud.Bencode.{
  be_null, be_list, be_dict, be_dict_pair, Operator, nothing, last_child, last_value, Node, Slot,
  Nodes, node, empty, full, nil, cons, push, back_waits, set_back_value, new, Action,
  open_dictionary, open_list, close_dictionary, close_list, add_int, add_text, act, act_at,
  act_slot, act_here, close_list_here, close_dictionary_here, open_dictionary_here, open_list_here,
  add_int_here, add_text_here, int_node, text_node, new_pair, c_string, closes, passes_on,
  operator_after,
}

-- The node of a key.
unfoldable pub pair : List ℕ → Slot → Node
pair key value = node be_dict_pair (pos 0) key [] value nil nothing

unfoldable pub list_of : Nodes → Operator → Node
list_of cs op = node be_list (pos 0) [] [] empty cs op

unfoldable pub dict_of : Nodes → Operator → Node
dict_of cs op = node be_dict (pos 0) [] [] empty cs op

-- A list or a dictionary that is open, with the children before the one that is read; in a
-- dictionary its key is already there.
pub data Frame : Type 0 where
  list_frame : Nodes → Frame
  dict_frame : Nodes → List ℕ → Frame

-- The open node before the next value, with the value in it, and with a value in it that is open
-- itself.
unfoldable pub hole : Frame → Node
hole (list_frame cs) = list_of cs nothing
hole (dict_frame cs key) = dict_of (push cs (pair key empty)) nothing

unfoldable pub fill : Frame → Node → Node
fill (list_frame cs) n = list_of (push cs n) nothing
fill (dict_frame cs key) n = dict_of (push cs (pair key (full n))) nothing

unfoldable pub plug_one : Frame → Node → Node
plug_one (list_frame cs) n = list_of (push cs n) last_child
plug_one (dict_frame cs key) n = dict_of (push cs (pair key (full n))) last_value

-- The root, around an open node; the innermost frame first.
unfoldable pub plug : List Frame → Node → Node
plug [] n = n
plug (fr ∷ fs) n = plug fs (plug_one fr n)

pub back_waits-push-empty :
    (cs : Nodes) (key : List ℕ) → back_waits (push cs (pair key empty)) ≡ true
unfolding back_waits push pair
back_waits-push-empty nil key = refl
back_waits-push-empty (cons c nil) key = refl
back_waits-push-empty (cons c (cons d ds)) key = back_waits-push-empty (cons d ds) key

pub back_waits-push-full :
    (cs : Nodes) (key : List ℕ) (n : Node) → back_waits (push cs (pair key (full n))) ≡ false
unfolding back_waits push pair
back_waits-push-full nil key n = refl
back_waits-push-full (cons c nil) key n = refl
back_waits-push-full (cons c (cons d ds)) key n = back_waits-push-full (cons d ds) key n

pub set_back_value-push :
    (cs : Nodes) (key : List ℕ) (n : Node)
    → set_back_value (push cs (pair key empty)) n ≡ push cs (pair key (full n))
unfolding set_back_value push pair
set_back_value-push nil key n = refl
set_back_value-push (cons c nil) key n = refl
set_back_value-push (cons c (cons d ds)) key n = ap (cons c) (set_back_value-push (cons d ds) key n)

act_at-last_child :
    (a : Action) (cs : Nodes) (n : Node)
    → act_at a last_child (push cs n) ≡ (push cs (act a n).0, (act a n).1)
unfolding act_at push
act_at-last_child a nil (node nt v k s kv ds op) = refl
act_at-last_child a (cons c nil) n = refl
act_at-last_child a (cons c (cons d ds)) n = rw (act_at-last_child a (cons d ds) n) refl

act_at-last_value :
    (a : Action) (cs : Nodes) (key : List ℕ) (n : Node)
    → act_at a last_value (push cs (pair key (full n)))
      ≡ (push cs (pair key (full (act a n).0)), (act a n).1)
unfolding act_at push pair act_slot
act_at-last_value a nil key n = refl
act_at-last_value a (cons c nil) key n = refl
act_at-last_value a (cons c (cons d ds)) key n = rw (act_at-last_value a (cons d ds) key n) refl

passes_on-plug_one :
    (a : Action) (cs : Nodes) (key : List ℕ) (n : Node)
    → passes_on a be_dict (push cs (pair key (full n))) last_value ≡ true
unfolding passes_on
passes_on-plug_one open_dictionary cs key n = refl
passes_on-plug_one open_list cs key n = rw (back_waits-push-full cs key n) refl
passes_on-plug_one close_dictionary cs key n = refl
passes_on-plug_one close_list cs key n = refl
passes_on-plug_one (add_int value) cs key n = refl
passes_on-plug_one (add_text value) cs key n = refl

-- A call on an open node inside another one goes on to it, and shuts the path if it has closed it.
act-plug_one :
    (a : Action) (fr : Frame) (n : Node)
    → act a (plug_one fr n) ≡ (
      if closes a && (act a n).1 then fill fr (act a n).0 else plug_one fr (act a n).0,
      not (closes a) && (act a n).1,
    )
unfolding act plug_one fill list_of dict_of operator_after passes_on
act-plug_one a (list_frame cs) n =
    rw (act_at-last_child a cs n)
      (elim (Bool-cases (closes a && (act a n).1)) [ inl e ↦ rw e refl | inr e ↦ rw e refl ])
act-plug_one a (dict_frame cs key) n =
    rw (passes_on-plug_one a cs key n, act_at-last_value a cs key n)
      (elim (Bool-cases (closes a && (act a n).1)) [ inl e ↦ rw e refl | inr e ↦ rw e refl ])

-- A call that shuts nothing acts at the end of the path.
pub act-plug :
    (a : Action) (fs : List Frame) (n m : Node) (ok : Bool)
    → act a n ≡ (m, ok)
    → (closes a && ok) ≡ false
    → act a (plug fs n) ≡ (plug fs m, ok)
unfolding plug
act-plug a [] n m ok h e = h
act-plug a (fr ∷ fs) n m ok h e =
    act-plug a fs (plug_one fr n) (plug_one fr m) ok
      (rw (act-plug_one a fr n, h, e) (ap (λ b. (plug_one fr m, b)) (ground (arith, e)))) e

-- A call that closes the open node shuts the path to it, and leaves the others.
pub act-plug_close :
    (a : Action) (fr : Frame) (fs : List Frame) (n m : Node)
    → act a n ≡ (m, true)
    → closes a ≡ true
    → (act a (plug (fr ∷ fs) n)).0 ≡ plug fs (fill fr m)
unfolding plug
act-plug_close a fr fs n m h c =
    ap (λ r. r.0)
      (act-plug a fs (plug_one fr n) (fill fr m) false (rw (act-plug_one a fr n, h, c) refl)
        (rw c refl))

-- What each of the five functions does at the end of the path.
pub open_dictionary-hole :
    (fr : Frame) → act open_dictionary (hole fr) ≡ (plug_one fr (dict_of nil nothing), true)
unfolding act act_here open_dictionary_here passes_on hole plug_one list_of dict_of new
open_dictionary-hole (list_frame cs) = refl
open_dictionary-hole (dict_frame cs key) =
    rw (back_waits-push-empty cs key, set_back_value-push cs key) refl

pub open_list-hole :
    (fr : Frame) → act open_list (hole fr) ≡ (plug_one fr (list_of nil nothing), true)
unfolding act act_here open_list_here passes_on hole plug_one list_of dict_of new
open_list-hole (list_frame cs) = refl
open_list-hole (dict_frame cs key) =
    rw (back_waits-push-empty cs key, set_back_value-push cs key) refl

pub add_int-hole : (z : ℤ) (fr : Frame) → act (add_int z) (hole fr) ≡ (fill fr (int_node z), true)
unfolding act act_here add_int_here passes_on hole fill list_of dict_of int_node
add_int-hole z (list_frame cs) = refl
add_int-hole z (dict_frame cs key) =
    rw (back_waits-push-empty cs key, set_back_value-push cs key) refl

pub add_text-hole :
    (s : List ℕ) (fr : Frame) → act (add_text s) (hole fr) ≡ (fill fr (text_node s), true)
unfolding act act_here add_text_here passes_on hole fill list_of dict_of text_node
add_text-hole s (list_frame cs) = refl
add_text-hole s (dict_frame cs key) =
    rw (back_waits-push-empty cs key, set_back_value-push cs key) refl

pub add_key :
    (s : List ℕ) (cs : Nodes)
    → back_waits cs ≡ false
    → c_string s ≡ s
    → act (add_text s) (dict_of cs nothing) ≡ (dict_of (push cs (pair s empty)) nothing, true)
unfolding act act_here add_text_here passes_on dict_of new_pair pair
add_key s cs h e = rw (h, e) refl

pub close_list-open :
    (cs : Nodes) → act close_list (list_of cs nothing) ≡ (list_of cs nothing, true)
unfolding act act_here close_list_here passes_on list_of
close_list-open cs = refl

pub close_dictionary-open :
    (cs : Nodes) → act close_dictionary (dict_of cs nothing) ≡ (dict_of cs nothing, true)
unfolding act act_here close_dictionary_here passes_on dict_of
close_dictionary-open cs = refl

-- The same on a new node.
pub open_dictionary-new : act open_dictionary (new be_null) ≡ (dict_of nil nothing, true)
unfolding act act_here open_dictionary_here passes_on dict_of new
open_dictionary-new = refl

pub open_list-new : act open_list (new be_null) ≡ (list_of nil nothing, true)
unfolding act act_here open_list_here passes_on list_of new
open_list-new = refl

pub add_int-new : (z : ℤ) → act (add_int z) (new be_null) ≡ (int_node z, true)
unfolding act act_here add_int_here passes_on int_node new
add_int-new z = refl

pub add_text-new : (s : List ℕ) → act (add_text s) (new be_null) ≡ (text_node s, true)
unfolding act act_here add_text_here passes_on text_node new
add_text-new s = refl
