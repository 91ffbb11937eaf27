-- ===== src/Attention/Undo.antt =====
-- Undo: the patches that the toast's Undo sends give back what the action's patches took.
use task_man.Text.{Text}
use task_man.Attention.Selection.{Attention}
