-- ===== src/Prelude/Values.antt =====
-- The values of `json.loads`: Python's `str`, `list` and `dict`, and the scalars by their texts.
use Prim.Native.Nat.{ℕ, ◌+◌}
use secu_scan.Prelude.Texts.{Text}

mutual
  pub data Json : Type 0 where
    scalar : Text → Json
    string : Text → Json
    array : Items → Json
    object : Fields → Json

  pub data Items : Type 0 where
    nil : Items
    cons : Json → Items → Items

  pub data Fields : Type 0 where
    end : Fields
    field : Text → Json → Fields → Fields

abbrev pub size : Items → ℕ
size nil = 0
size (cons x xs) = size xs + 1
