-- ===== src/Contracts.antt =====
-- shared/contracts: the wire types, verdicts, reason codes, claim states, outcomes and errors that
-- every other part uses. One child for each file of that package.
mod Errors
mod Proposal
mod Decisions
mod Record
mod Claim
mod Outcome
mod Audit
unfoldable pub use Errors.*
unfoldable pub use Proposal.*
unfoldable pub use Decisions.*
unfoldable pub use Record.*
unfoldable pub use Claim.*
unfoldable pub use Outcome.*
unfoldable pub use Audit.*
