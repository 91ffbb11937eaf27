-- ===== src/Composer.antt =====
-- ui/src/components/TaskComposer.tsx: the expandable quick-add card of the team page, of the
-- Day/Week/Month header and of the backlog. The hooks of the component are the record `Composer`,
-- an event handler is a function from the state to the next one, and `sent` lists the calls of
-- `api.createTask`, the latest first. A handler of the rendered card runs on the state of the last
-- render. The server's answer is an event of its own.
pub mod Draft
pub mod Create
pub mod Events
pub mod Payload
pub mod Invariant
pub mod Agreement
pub mod Answer
mod Tests
