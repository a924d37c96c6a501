-- ===== src/Clarity/Value.antt =====
-- Clarity values as @stacks/transactions builds them (`uintCV`, `bufferCV`, `tupleCV`, ...).
-- A principal and an ASCII string are kept as texts; a tuple lists its fields as written.
use pillar_wallets_xyz.Base.{ℕ, String, Bool, Bytes}

mutual
  pub data Value : Type 0 where
    uint : ℕ → Value
    bool : Bool → Value
    buffer : Bytes → Value
    principal : String → Value
    ascii : String → Value
    none_value : Value
    some_value : Value → Value
    tuple : Fields → Value
    list : Values → Value

  pub data Fields : Type 0 where
    end : Fields
    field : String → Value → Fields → Fields

  pub data Values : Type 0 where
    empty : Values
    item : Value → Values → Values
