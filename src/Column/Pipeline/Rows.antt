-- ===== src/Column/Pipeline/Rows.antt =====
-- Rows that are fed into a pipeline and fetched from it, with no computation between.
use lark.Base.{ℕ, List, text}
use lark.Column.Tensor.{Tensor}
use lark.Column.Table
use lark.Column.Table.{TensorTable}
use lark.Column.Store
use lark.Column.Store.{TensorStore, collect}
use lark.Column.Pipeline.{feed_phase, Pipeline, leave}

module _ {S F : Type 0} where
  -- The pipeline whose table has gone into the store.
  abbrev loaded : ℕ → TensorTable S F → TensorStore S F → Pipeline S F → Pipeline S F
  loaded later table store p =
      leave feed_phase (text "feed.end") (text "feed") later
        (record p { ctx = record p.ctx { feed = table; store = store } })
