-- ===== src/Http.antt =====
-- The http side: the directory http. Http.Store and Http.Value are the multi-maps of form values,
-- Http.Json and Http.Files the JSON body and the files; Http.Stream is what a handler gets of a
-- request; Http.Router and Http.Server are http/server; Http.Request is what http/client makes of the
-- calls on its `info`.
pub mod Store
pub mod Value
pub mod Json
pub mod Files
pub mod Stream
pub mod Request
pub mod Router
pub mod Server
