-- ===== src/Deploy.antt =====
-- webapp/src/hooks/use-program-deploy.ts: deploying the program from the browser.
pub mod Action
pub mod Funding
pub mod Writing
pub mod Finishing
pub mod Run
pub mod Keeping
pub mod Refs
pub mod Recovery
pub mod Laws
pub mod Outcome
pub mod Adding
pub mod Written
pub mod Upload
pub mod Delivery
pub mod Progressing
