-- ===== src/Endpoints.antt =====
-- bill/endpoints.go: the endpoints. The Temporal client is an interface: what its calls answer.
pub mod Errors
pub mod Loading
pub mod Create
pub mod AddItem
pub mod Read
pub mod Ownership
pub mod Mapping
pub mod Retries
pub mod Cursors
pub mod ListItems
pub mod Paging
pub mod Pages
pub mod ItemPages
pub mod ListEvents
pub mod EventPages
pub mod ListBills
pub mod BillPages
pub mod OwnBills
pub mod Shown
pub mod Access
pub mod Live
pub mod LiveClose
pub mod Malformed
pub mod PageSizes
pub mod Closing
