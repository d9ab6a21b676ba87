-- ===== src/Cellnet/ChainMgr.antt =====
-- cellnet/handlerchainmgr.go: the chains that the sessions of a peer share. `C` stands for a
-- reference to a chain. A `range` over the map takes the entries in any order: it is a parameter,
-- which rearranges them. Each lock makes one step.
pub mod Cache
use cellorigin.Base.{
  ℕ, ◌+◌, ◌%◌, ◌^◌, List, [], ◌∷◌, Option, none, some, Bool, true, false, if◌then◌else◌,
}
use cellorigin.Base.Assoc.{insert, delete, nat_eq}

pub record HandlerChainManager (C : Type 0) : Type 0 where
  pub recv_chain_by_id : List (ℕ × C)
  pub chain_id_acc : ℕ
  pub recv_chain_list_dirty : Bool
  pub recv_chain_list : List C
  pub send_chain : Option C
  pub read_chain_creator : Option (Unit {0} → C)
  pub write_chain_creator : Option (Unit {0} → C)

module _ {C : Type 0} where
  -- `AddChainRecv`: the manager and the id.
  unfoldable pub add_chain_recv : C → HandlerChainManager C → HandlerChainManager C × ℕ
  add_chain_recv recv mgr =
      let auto_id = (mgr.chain_id_acc + 1) % 2 ^ 64 in
      (
        record mgr {
          chain_id_acc = auto_id;
          recv_chain_by_id = insert auto_id recv mgr.recv_chain_by_id;
          recv_chain_list_dirty = true;
        },
        auto_id,
      )

  unfoldable pub remove_chain_recv : ℕ → HandlerChainManager C → HandlerChainManager C
  remove_chain_recv id mgr = record mgr {
    recv_chain_by_id = delete id mgr.recv_chain_by_id;
    recv_chain_list_dirty = true;
  }

  unfoldable pub set_chain_send : Option C → HandlerChainManager C → HandlerChainManager C
  set_chain_send chain mgr = record mgr { send_chain = chain }

  unfoldable pub chain_send : HandlerChainManager C → Option C
  chain_send mgr = mgr.send_chain

  -- A creator that was not set is a nil function, and its call panics (`none`).
  unfoldable pub create_chain_write : HandlerChainManager C → Option C
  create_chain_write mgr = elim mgr.write_chain_creator [ none ↦ none | some f ↦ some (f tt) ]

  unfoldable pub create_chain_read : HandlerChainManager C → Option C
  create_chain_read mgr = elim mgr.read_chain_creator [ none ↦ none | some f ↦ some (f tt) ]

  unfoldable pub set_read_write_chain :
      Option (Unit {0} → C) → Option (Unit {0} → C) → HandlerChainManager C → HandlerChainManager C
  set_read_write_chain read write mgr = record mgr {
    read_chain_creator = read;
    write_chain_creator = write;
  }

  -- The loop over the map, by the entries in the order in which `range` gives them.
  unfoldable pub values : List (ℕ × C) → List C
  values [] = []
  values ((id, chain) ∷ m) = chain ∷ values m

  unfoldable pub chain_list_recv :
      (List (ℕ × C) → List (ℕ × C)) → HandlerChainManager C → List C × HandlerChainManager C
  unfolding values
  chain_list_recv range mgr =
      let list = values (range mgr.recv_chain_by_id) in
      if mgr.recv_chain_list_dirty
      then (list, record mgr { recv_chain_list = list; recv_chain_list_dirty = false })
      else (mgr.recv_chain_list, mgr)

  unfoldable pub new_handler_chain_manager : HandlerChainManager C
  new_handler_chain_manager = record {
    recv_chain_by_id = [];
    chain_id_acc = 0;
    recv_chain_list_dirty = false;
    recv_chain_list = [];
    send_chain = none;
    read_chain_creator = none;
    write_chain_creator = none;
  }
