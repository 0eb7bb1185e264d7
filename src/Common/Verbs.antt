-- ===== src/Common/Verbs.antt =====
-- common.h: the requests that a client can make.
pub data Verb : Type 0 where
  get : Verb
  put : Verb
  delete : Verb
  list : Verb
  v_unknown : Verb
