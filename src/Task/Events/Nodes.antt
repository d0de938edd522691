-- ===== src/Task/Events/Nodes.antt =====
-- The nodes of a listener list of `EventManager` (libcore/src/task/EventManager.cpp).
use sirikata.Base.{ℕ, suc, ◌<◌, ◌≡◌, ◌≢◌, refl, none, some, [], ◌∷◌, ◌==◌, if◌then◌else◌, arith}
use sirikata.Task.Events.{Listener, ListenerList}
use sirikata.Task.Events.Lists.{find_node, erase_node}

abbrev pub NodesBelow : ℕ → ListenerList → Type 0
NodesBelow n [] = Unit {0}
NodesBelow n (l ∷ ls) = (l.node < n) × NodesBelow n ls

abbrev pub DistinctNodes : ListenerList → Type 0
DistinctNodes [] = Unit {0}
DistinctNodes (l ∷ ls) = (find_node l.node ls ≡ none) × DistinctNodes ls

-- Each of the listeners is found at its node.
abbrev pub AllFound : ListenerList → ListenerList → Type 0
AllFound [] ls = Unit {0}
AllFound (k ∷ ks) ls = (find_node k.node ls ≡ some k) × AllFound ks ls

pub find_node-fresh : (n : ℕ) (ls : ListenerList) → NodesBelow n ls → find_node n ls ≡ none
unfolding find_node
find_node-fresh n [] h = refl
find_node-fresh n (l ∷ ls) h = ground (arith, find_node-fresh n ls h.1)

pub find_node-erase_node :
    (k n : ℕ) (ls : ListenerList)
    → DistinctNodes ls
    → find_node k (erase_node n ls) ≡ (if k == n then none else find_node k ls)
unfolding find_node
find_node-erase_node k n [] d = ground arith
find_node-erase_node k n (l ∷ ls) d = ground (arith, find_node-erase_node k n ls d.1)

pub erase_node-NodesBelow :
    (k n : ℕ) (ls : ListenerList) → NodesBelow n ls → NodesBelow n (erase_node k ls)
erase_node-NodesBelow k n [] h = tt
erase_node-NodesBelow k n (l ∷ ls) h = ground (arith, erase_node-NodesBelow k n ls h.1)

pub erase_node-DistinctNodes :
    (k : ℕ) (ls : ListenerList) → DistinctNodes ls → DistinctNodes (erase_node k ls)
unfolding find_node
erase_node-DistinctNodes k [] d = tt
erase_node-DistinctNodes k (l ∷ ls) d =
    ground (arith, erase_node-DistinctNodes k ls d.1, find_node-erase_node l.node k ls d.1)

pub NodesBelow-suc : (n : ℕ) (ls : ListenerList) → NodesBelow n ls → NodesBelow (suc n) ls
NodesBelow-suc n [] h = tt
NodesBelow-suc n (l ∷ ls) h = (omega (arith, h.0), NodesBelow-suc n ls h.1)

AllFound-skip :
    (ks ls : ListenerList) (l : Listener)
    → find_node l.node ks ≡ none
    → AllFound ks ls
    → AllFound ks (l ∷ ls)
unfolding find_node
AllFound-skip [] ls l e h = tt
AllFound-skip (k ∷ ks) ls l e h = (ground arith, AllFound-skip ks ls l (ground arith) h.1)

pub AllFound-self : (ls : ListenerList) → DistinctNodes ls → AllFound ls ls
unfolding find_node
AllFound-self [] d = tt
AllFound-self (l ∷ ls) d = (ground arith, AllFound-skip ls ls l d.0 (AllFound-self ls d.1))

pub AllFound-erase_node :
    (ks ls : ListenerList) (n : ℕ)
    → DistinctNodes ls
    → find_node n ks ≡ none
    → AllFound ks ls
    → AllFound ks (erase_node n ls)
unfolding find_node
AllFound-erase_node [] ls n d e h = tt
AllFound-erase_node (k ∷ ks) ls n d e h = (
  ground (arith, find_node-erase_node k.node n ls d),
  AllFound-erase_node ks ls n d (ground arith) h.1,
)

-- What is found at another node stays when a node is erased, or put in front.
pub find_node-erased :
    (j n : ℕ) (ls : ListenerList) (k l : Listener) (id : ℕ)
    → DistinctNodes ls
    → find_node n ls ≡ some l
    → l.id ≢ some id
    → k.id ≡ some id
    → find_node j ls ≡ some k
    → find_node j (erase_node n ls) ≡ some k
find_node-erased j n ls k l id d found other its at = ground (arith, find_node-erase_node j n ls d)

pub find_node-newer :
    (j : ℕ) (ls : ListenerList) (k l : Listener)
    → NodesBelow l.node ls
    → find_node j ls ≡ some k
    → find_node j (l ∷ ls) ≡ some k
unfolding find_node
find_node-newer j ls k l below at = ground (arith, find_node-fresh l.node ls below)

pub find_node_front : (l : Listener) (ls : ListenerList) → find_node l.node (l ∷ ls) ≡ some l
unfolding find_node
find_node_front l ls = ground arith
