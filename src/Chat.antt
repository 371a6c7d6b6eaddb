-- ===== src/Chat.antt =====
-- The live chat of pop/fly/js/ape/app: what the operator's console (bmoon.chatb.js) and the
-- visitor's box (bmoon.chat.js) share.
pub mod Uri
pub mod Tags
pub mod Render
pub mod Own
mod Examples
