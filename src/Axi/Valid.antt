-- ===== src/Axi/Valid.antt =====
-- The range of the registers of a port (`AxiPort` of rocket/rocket-main.cpp) over the turns of the loop.
use arc_tests.Prelude.{ℕ, ◌≡◌, some, arith}
use arc_tests.Axi.{AxiOutputs}
use arc_tests.Axi.Cycle.{see, Turn, IsAxi, IsValid, turn, turn_inv, see-IsValid}
use arc_tests.Axi.Reads.{Shown, update_a-Shown}
use arc_tests.Axi.Writes.{Written, update_a-Written}
use arc_tests.Axi.Port.{AxiPort, Callbacks, update_b, read_data}

update_b-IsValid :
    (p m : AxiPort) (a b : AxiOutputs) (word : ℕ)
    → IsValid p
    → IsAxi a
    → Shown (see a p) word m
    → Written (see a p) m
    → IsValid (update_b (see b m))
unfolding update_b
update_b-IsValid p m a b word v axi shown written = ground arith

module _ {S : Type 0} (fns : Callbacks S) where
  pub turn-IsValid :
      (s : S) (p : AxiPort) (t : Turn) {s' : S} {m q : AxiPort}
      → IsValid p
      → IsAxi t.0
      → turn fns s p t ≡ some (s', m, q)
      → IsValid q
  turn-IsValid s p (a, b) {m = m} v axi h =
      let (went, ends) = turn_inv fns s p a b h in
      rw ends (
        update_b-IsValid p m a b (read_data fns s p.read_addr) v axi
          (update_a-Shown fns s (see a p) went)
          (update_a-Written fns s (see a p) (see-IsValid a v) went))
